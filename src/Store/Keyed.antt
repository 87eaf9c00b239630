-- ===== src/Store/Keyed.antt =====
-- The tables of the store, each keyed by its values.
use domux.Prelude.{List, []}
use domux.Text.{Text}
use domux.Mapping.{Mapping}
use domux.Mapping.Keyed.{IsKeyed, IsKeyed-nil, keyed_onto-IsKeyed}
use domux.Core.Types.{
  ManagedZone, DdnsProviderConfig, CustomApp, RuntimeSource, AgentNode, DiscoveredRoute,
  DdnsSyncState, DeployTarget, CertificateBundle,
}
use domux.Core.Runtime.{Env, runtime_or_default}
use domux.Store.{MemoryStore, new_memory_store, keyed_map, domain_key, ddns_state_key}

abbrev pub state_key : DdnsSyncState → Text
state_key s = ddns_state_key s.domain s.provider s.host s.record_type

-- Every table holds each of its values under its own key, and holds no key twice.
pub record IsKeyedStore (env : Env) (s : MemoryStore) : Type 0 where
  pub zones : IsKeyed domain_key s.zones
  pub providers : IsKeyed (λ (p : DdnsProviderConfig). p.ref) s.providers
  pub apps : IsKeyed (λ (a : CustomApp). a.name) s.apps
  pub sources : IsKeyed (runtime_or_default env) s.sources
  pub agents : IsKeyed (λ (n : AgentNode). n.name) s.agents
  pub pending_agents : IsKeyed (λ (n : AgentNode). n.name) s.pending_agents
  pub routes : IsKeyed (λ (r : DiscoveredRoute). r.id) s.routes
  pub ddns : IsKeyed state_key s.ddns
  pub targets : IsKeyed (λ (t : DeployTarget). t.name) s.targets
  pub bundles : IsKeyed (λ (b : CertificateBundle). b.name) s.bundles

pub keyed_map-IsKeyed {ℓ} :
    {V : Type ℓ} (id : V → Text) (vs : List V) → IsKeyed id (keyed_map vs id)
unfolding keyed_map
keyed_map-IsKeyed id vs = keyed_onto-IsKeyed id vs [] (IsKeyed-nil id)

-- The invariant with one table replaced.
module _ {env : Env} {s : MemoryStore} (h : IsKeyedStore env s) where
  pub with_zones :
      {m : Mapping ManagedZone} → IsKeyed domain_key m → IsKeyedStore env (record s { zones = m })
  with_zones k = record {
    zones = k;
    providers = h.providers;
    apps = h.apps;
    sources = h.sources;
    agents = h.agents;
    pending_agents = h.pending_agents;
    routes = h.routes;
    ddns = h.ddns;
    targets = h.targets;
    bundles = h.bundles;
  }

  pub with_providers :
      {m : Mapping DdnsProviderConfig}
      → IsKeyed (λ (p : DdnsProviderConfig). p.ref) m
      → IsKeyedStore env (record s { providers = m })
  with_providers k = record {
    zones = h.zones;
    providers = k;
    apps = h.apps;
    sources = h.sources;
    agents = h.agents;
    pending_agents = h.pending_agents;
    routes = h.routes;
    ddns = h.ddns;
    targets = h.targets;
    bundles = h.bundles;
  }

  pub with_apps :
      {m : Mapping CustomApp}
      → IsKeyed (λ (a : CustomApp). a.name) m
      → IsKeyedStore env (record s { apps = m })
  with_apps k = record {
    zones = h.zones;
    providers = h.providers;
    apps = k;
    sources = h.sources;
    agents = h.agents;
    pending_agents = h.pending_agents;
    routes = h.routes;
    ddns = h.ddns;
    targets = h.targets;
    bundles = h.bundles;
  }

  pub with_sources :
      {m : Mapping RuntimeSource}
      → IsKeyed (runtime_or_default env) m
      → IsKeyedStore env (record s { sources = m })
  with_sources k = record {
    zones = h.zones;
    providers = h.providers;
    apps = h.apps;
    sources = k;
    agents = h.agents;
    pending_agents = h.pending_agents;
    routes = h.routes;
    ddns = h.ddns;
    targets = h.targets;
    bundles = h.bundles;
  }

  pub with_agents :
      {m : Mapping AgentNode}
      → IsKeyed (λ (n : AgentNode). n.name) m
      → IsKeyedStore env (record s { agents = m })
  with_agents k = record {
    zones = h.zones;
    providers = h.providers;
    apps = h.apps;
    sources = h.sources;
    agents = k;
    pending_agents = h.pending_agents;
    routes = h.routes;
    ddns = h.ddns;
    targets = h.targets;
    bundles = h.bundles;
  }

  pub with_pending_agents :
      {m : Mapping AgentNode}
      → IsKeyed (λ (n : AgentNode). n.name) m
      → IsKeyedStore env (record s { pending_agents = m })
  with_pending_agents k = record {
    zones = h.zones;
    providers = h.providers;
    apps = h.apps;
    sources = h.sources;
    agents = h.agents;
    pending_agents = k;
    routes = h.routes;
    ddns = h.ddns;
    targets = h.targets;
    bundles = h.bundles;
  }

  pub with_routes :
      {m : Mapping DiscoveredRoute}
      → IsKeyed (λ (r : DiscoveredRoute). r.id) m
      → IsKeyedStore env (record s { routes = m })
  with_routes k = record {
    zones = h.zones;
    providers = h.providers;
    apps = h.apps;
    sources = h.sources;
    agents = h.agents;
    pending_agents = h.pending_agents;
    routes = k;
    ddns = h.ddns;
    targets = h.targets;
    bundles = h.bundles;
  }

  pub with_ddns :
      {m : Mapping DdnsSyncState} → IsKeyed state_key m → IsKeyedStore env (record s { ddns = m })
  with_ddns k = record {
    zones = h.zones;
    providers = h.providers;
    apps = h.apps;
    sources = h.sources;
    agents = h.agents;
    pending_agents = h.pending_agents;
    routes = h.routes;
    ddns = k;
    targets = h.targets;
    bundles = h.bundles;
  }

  pub with_targets :
      {m : Mapping DeployTarget}
      → IsKeyed (λ (t : DeployTarget). t.name) m
      → IsKeyedStore env (record s { targets = m })
  with_targets k = record {
    zones = h.zones;
    providers = h.providers;
    apps = h.apps;
    sources = h.sources;
    agents = h.agents;
    pending_agents = h.pending_agents;
    routes = h.routes;
    ddns = h.ddns;
    targets = k;
    bundles = h.bundles;
  }

  pub with_bundles :
      {m : Mapping CertificateBundle}
      → IsKeyed (λ (b : CertificateBundle). b.name) m
      → IsKeyedStore env (record s { bundles = m })
  with_bundles k = record {
    zones = h.zones;
    providers = h.providers;
    apps = h.apps;
    sources = h.sources;
    agents = h.agents;
    pending_agents = h.pending_agents;
    routes = h.routes;
    ddns = h.ddns;
    targets = h.targets;
    bundles = k;
  }

pub new-IsKeyedStore : (env : Env) → IsKeyedStore env new_memory_store
new-IsKeyedStore env = record {
  zones = IsKeyed-nil _;
  providers = IsKeyed-nil _;
  apps = IsKeyed-nil _;
  sources = IsKeyed-nil _;
  agents = IsKeyed-nil _;
  pending_agents = IsKeyed-nil _;
  routes = IsKeyed-nil _;
  ddns = IsKeyed-nil _;
  targets = IsKeyed-nil _;
  bundles = IsKeyed-nil _;
}
