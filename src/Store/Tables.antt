-- ===== src/Store/Tables.antt =====
-- The tables of the store after sequences of calls.
use mathlib.Core.List.{Perm}
use domux.Prelude.{◌≡◌, none, List, [], ◌∷◌}
use domux.Text.{Text}
use domux.Mapping.{Mapping, values, last_with, get, get-keyed_onto}
use domux.Mapping.Keyed.{put-IsKeyed, delete-IsKeyed}
use domux.Sort.{Ascending, by_key, by_key_total, by_key_trans, sort-perm, sort-Ascending}
use domux.Core.Types.{ManagedZone}
use domux.Core.Runtime.{Env}
use domux.Store
use domux.Store.{
  with_domain, MemoryStore, new_memory_store, keyed_map, sorted_by, domain_key, ddns_state_key,
}
use domux.Store.Calls.{
  Call, perform, perform_all, replace_custom_apps, put_custom_app, delete_custom_app,
  replace_applications, replace_domains, put_domain, delete_domain, replace_ddns_providers,
  put_ddns_provider, replace_runtimes, put_runtime_source, replace_agents, put_agent,
  put_pending_agent, delete_pending_agent, replace_routes, put_ddns_sync_state,
  replace_deploy_targets, put_deploy_target, delete_deploy_target, put_bundle, delete_bundle,
  append_deploy_run, append_job_run,
}
use domux.Store.Keyed.{
  state_key, IsKeyedStore, with_zones, with_providers, with_apps, with_sources, with_agents,
  with_pending_agents, with_routes, with_ddns, with_targets, with_bundles, keyed_map-IsKeyed,
  new-IsKeyedStore,
}

perform-IsKeyedStore :
    (env : Env) (c : Call) (s : MemoryStore)
    → IsKeyedStore env s
    → IsKeyedStore env (perform env c s)
unfolding perform Store.replace_custom_apps Store.put_custom_app Store.delete_custom_app
    Store.replace_applications Store.replace_domains Store.put_domain Store.delete_domain
    Store.replace_ddns_providers Store.put_ddns_provider Store.replace_runtimes
    Store.put_runtime_source Store.replace_agents Store.put_agent Store.put_pending_agent
    Store.delete_pending_agent Store.replace_routes Store.put_ddns_sync_state
    Store.replace_deploy_targets Store.put_deploy_target Store.delete_deploy_target Store.put_bundle
    Store.delete_bundle Store.append_deploy_run Store.append_job_run
perform-IsKeyedStore env (replace_custom_apps apps) s h = with_apps h (keyed_map-IsKeyed _ apps)
perform-IsKeyedStore env (put_custom_app app) s h = with_apps h (put-IsKeyed _ app h.apps)
perform-IsKeyedStore env (delete_custom_app name) s h = with_apps h (delete-IsKeyed _ name h.apps)
perform-IsKeyedStore env (replace_applications apps) s h = assumption
perform-IsKeyedStore env (replace_domains domains) s h = with_zones h (keyed_map-IsKeyed _ domains)
perform-IsKeyedStore env (put_domain domain) s h = with_zones h (put-IsKeyed _ domain h.zones)
perform-IsKeyedStore env (delete_domain name) s h = with_zones h (delete-IsKeyed _ name h.zones)
perform-IsKeyedStore env (replace_ddns_providers providers) s h =
    with_providers h (keyed_map-IsKeyed _ providers)
perform-IsKeyedStore env (put_ddns_provider provider) s h =
    with_providers h (put-IsKeyed _ provider h.providers)
perform-IsKeyedStore env (replace_runtimes sources) s h =
    with_sources h (keyed_map-IsKeyed _ sources)
perform-IsKeyedStore env (put_runtime_source source) s h =
    with_sources h (put-IsKeyed _ source h.sources)
perform-IsKeyedStore env (replace_agents nodes) s h = with_agents h (keyed_map-IsKeyed _ nodes)
perform-IsKeyedStore env (put_agent node) s h = with_agents h (put-IsKeyed _ node h.agents)
perform-IsKeyedStore env (put_pending_agent node) s h =
    with_pending_agents h (put-IsKeyed _ node h.pending_agents)
perform-IsKeyedStore env (delete_pending_agent name) s h =
    with_pending_agents h (delete-IsKeyed _ name h.pending_agents)
perform-IsKeyedStore env (replace_routes routes) s h = with_routes h (keyed_map-IsKeyed _ routes)
perform-IsKeyedStore env (put_ddns_sync_state state) s h =
    with_ddns h (put-IsKeyed state_key (with_domain state) h.ddns)
perform-IsKeyedStore env (replace_deploy_targets targets) s h =
    with_targets h (keyed_map-IsKeyed _ targets)
perform-IsKeyedStore env (put_deploy_target target) s h =
    with_targets h (put-IsKeyed _ target h.targets)
perform-IsKeyedStore env (delete_deploy_target name) s h =
    with_targets h (delete-IsKeyed _ name h.targets)
perform-IsKeyedStore env (put_bundle bundle) s h = with_bundles h (put-IsKeyed _ bundle h.bundles)
perform-IsKeyedStore env (delete_bundle name) s h = with_bundles h (delete-IsKeyed _ name h.bundles)
perform-IsKeyedStore env (append_deploy_run run) s h = assumption
perform-IsKeyedStore env (append_job_run run) s h = assumption

perform_all-IsKeyedStore :
    (env : Env) (cs : List Call) (s : MemoryStore)
    → IsKeyedStore env s
    → IsKeyedStore env (perform_all env cs s)
unfolding perform_all
perform_all-IsKeyedStore env [] s h = h
perform_all-IsKeyedStore env (c ∷ cs) s h =
    perform_all-IsKeyedStore env cs (perform env c s) (perform-IsKeyedStore env c s h)

-- After any calls of the methods that change the store, from the empty store, every table holds each
-- of its values under its own key and holds no key twice.
pub reachable-IsKeyedStore :
    (env : Env) (cs : List Call) → IsKeyedStore env (perform_all env cs new_memory_store)
reachable-IsKeyedStore env cs =
    perform_all-IsKeyedStore env cs new_memory_store (new-IsKeyedStore env)

-- A table is listed in the order of the text by which it is sorted, each value as often as it is held.
pub sorted_by-Ascending {ℓ} :
    {V : Type ℓ} (key : V → Text) (m : Mapping V)
    → Ascending (by_key key) (sorted_by key m) × Perm (sorted_by key m) (values m)
unfolding sorted_by
sorted_by-Ascending key m = (
  sort-Ascending (by_key key) (by_key_total key) (by_key_trans key) (values m),
  sort-perm (by_key key) (values m),
)

-- After ReplaceDomains a domain is found exactly if one of the given domains has its name as its
-- key, and then the last of these is found.
pub get_domain-replace_domains :
    (name : Text) (domains : List ManagedZone) (s : MemoryStore)
    → Store.get_domain name (Store.replace_domains domains s)
      ≡ last_with domain_key name domains none
unfolding Store.get_domain Store.replace_domains keyed_map get
get_domain-replace_domains name domains s = get-keyed_onto domain_key name domains []
