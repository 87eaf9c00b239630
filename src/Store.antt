-- ===== src/Store.antt =====
-- internal/platform/store/store.go: the state of the running program, in memory. Every method takes
-- the lock for all of its body, so a method is one step; those of the source that return an error
-- always return nil.
pub mod Calls
pub mod Keyed
pub mod Tables
pub mod SyncStates
use domux.Prelude.{Bool, List, [], ◌∷◌, ◌++◌, Option, if◌then◌else◌}
use domux.Text.{Text, ◌==◌}
use domux.Mapping.{Mapping, get, put, delete, values, keyed_onto}
use domux.Sort.{sort, by_key, by_key_then}
use domux.Core.Types.{
  ManagedZone, DdnsProviderConfig, CustomApp, RuntimeSource, AgentNode, Application,
  DiscoveredRoute, DdnsSyncState, DeployTarget, CertificateBundle, DeployRun, JobRun,
}
use domux.Core.Runtime.{Env, runtime_or_default}

pub record MemoryStore : Type 0 where
  pub zones : Mapping ManagedZone
  pub providers : Mapping DdnsProviderConfig
  pub apps : Mapping CustomApp
  pub sources : Mapping RuntimeSource
  pub agents : Mapping AgentNode
  pub pending_agents : Mapping AgentNode
  pub application_list : List Application
  pub routes : Mapping DiscoveredRoute
  pub ddns : Mapping DdnsSyncState
  pub targets : Mapping DeployTarget
  pub bundles : Mapping CertificateBundle
  pub deploys : List DeployRun
  pub jobs : List JobRun

-- NewMemoryStore
abbrev pub new_memory_store : MemoryStore
new_memory_store = record {
  zones = [];
  providers = [];
  apps = [];
  sources = [];
  agents = [];
  pending_agents = [];
  application_list = [];
  routes = [];
  ddns = [];
  targets = [];
  bundles = [];
  deploys = [];
  jobs = [];
}

-- keyedMap
unfoldable pub keyed_map {ℓ} : {V : Type ℓ} → List V → (V → Text) → Mapping V
keyed_map vs id = keyed_onto id vs []

-- the values of a map, sorted by a text
unfoldable pub sorted_by {ℓ} : {V : Type ℓ} → (V → Text) → Mapping V → List V
sorted_by key m = sort (by_key key) (values m)

-- Custom apps
unfoldable pub replace_custom_apps : List CustomApp → MemoryStore → MemoryStore
replace_custom_apps apps s = record s { apps = keyed_map apps (λ app. app.name) }

unfoldable pub put_custom_app : CustomApp → MemoryStore → MemoryStore
put_custom_app app s = record s { apps = put app.name app s.apps }

unfoldable pub get_custom_app : Text → MemoryStore → Option CustomApp
get_custom_app name s = get name s.apps

unfoldable pub delete_custom_app : Text → MemoryStore → MemoryStore
delete_custom_app name s = record s { apps = delete name s.apps }

unfoldable pub list_custom_apps : MemoryStore → List CustomApp
list_custom_apps s = sorted_by (λ app. app.name) s.apps

unfoldable pub replace_applications : List Application → MemoryStore → MemoryStore
replace_applications apps s = record s { application_list = apps }

unfoldable pub list_applications : MemoryStore → List Application
list_applications s = s.application_list

-- Domains; the methods named after zones are the same.
unfoldable pub domain_key : ManagedZone → Text
domain_key zone = if zone.domain == [] then zone.name else zone.domain

unfoldable pub replace_domains : List ManagedZone → MemoryStore → MemoryStore
replace_domains domains s = record s { zones = keyed_map domains domain_key }

unfoldable pub put_domain : ManagedZone → MemoryStore → MemoryStore
put_domain domain s = record s { zones = put (domain_key domain) domain s.zones }

unfoldable pub get_domain : Text → MemoryStore → Option ManagedZone
get_domain name s = get name s.zones

unfoldable pub delete_domain : Text → MemoryStore → MemoryStore
delete_domain name s = record s { zones = delete name s.zones }

unfoldable pub list_domains : MemoryStore → List ManagedZone
list_domains s = sorted_by (λ domain. domain.name) s.zones

-- DDNS providers
unfoldable pub replace_ddns_providers : List DdnsProviderConfig → MemoryStore → MemoryStore
replace_ddns_providers providers s = record s { providers = keyed_map providers (λ p. p.ref) }

unfoldable pub put_ddns_provider : DdnsProviderConfig → MemoryStore → MemoryStore
put_ddns_provider p s = record s { providers = put p.ref p s.providers }

unfoldable pub get_ddns_provider : Text → MemoryStore → Option DdnsProviderConfig
get_ddns_provider ref s = get ref s.providers

unfoldable pub list_ddns_providers : MemoryStore → List DdnsProviderConfig
list_ddns_providers s = sorted_by (λ p. p.ref) s.providers

-- Runtimes, by the runtime that a source stands for
unfoldable pub replace_runtimes : Env → List RuntimeSource → MemoryStore → MemoryStore
replace_runtimes env sources s = record s { sources = keyed_map sources (runtime_or_default env) }

unfoldable pub put_runtime_source : Env → RuntimeSource → MemoryStore → MemoryStore
put_runtime_source env source s = record s {
  sources = put (runtime_or_default env source) source s.sources;
}

unfoldable pub list_runtimes : Env → MemoryStore → List RuntimeSource
list_runtimes env s = sorted_by (runtime_or_default env) s.sources

-- Agents, approved and pending
unfoldable pub replace_agents : List AgentNode → MemoryStore → MemoryStore
replace_agents nodes s = record s { agents = keyed_map nodes (λ node. node.name) }

unfoldable pub put_agent : AgentNode → MemoryStore → MemoryStore
put_agent node s = record s { agents = put node.name node s.agents }

unfoldable pub list_agents : MemoryStore → List AgentNode
list_agents s = sorted_by (λ node. node.name) s.agents

unfoldable pub put_pending_agent : AgentNode → MemoryStore → MemoryStore
put_pending_agent node s = record s { pending_agents = put node.name node s.pending_agents }

unfoldable pub delete_pending_agent : Text → MemoryStore → MemoryStore
delete_pending_agent name s = record s { pending_agents = delete name s.pending_agents }

unfoldable pub list_pending_agents : MemoryStore → List AgentNode
list_pending_agents s = sorted_by (λ node. node.name) s.pending_agents

-- Routes
unfoldable pub replace_routes : List DiscoveredRoute → MemoryStore → MemoryStore
replace_routes routes s = record s { routes = keyed_map routes (λ route. route.id) }

unfoldable pub list_routes : MemoryStore → List DiscoveredRoute
list_routes s = sorted_by (λ route. route.host) s.routes

-- ddnsStateKey
unfoldable pub ddns_state_key : Text → Text → Text → Text → Text
ddns_state_key zone provider host record_type =
    zone ++ b':' ∷ (provider ++ b':' ∷ (record_type ++ b':' ∷ host))

-- the domain and the zone, each standing in for the other
unfoldable pub with_domain : DdnsSyncState → DdnsSyncState
with_domain state =
    let s = if state.domain == [] then record state { domain = state.zone } else state in
    if s.zone == [] then record s { zone = s.domain } else s

unfoldable pub put_ddns_sync_state : DdnsSyncState → MemoryStore → MemoryStore
put_ddns_sync_state raw s =
    let state = with_domain raw in
    record s {
      ddns =
          put (ddns_state_key state.domain state.provider state.host state.record_type) state
            s.ddns;
    }

unfoldable pub get_ddns_sync_state : Text → Text → Text → Text → MemoryStore → Option DdnsSyncState
get_ddns_sync_state zone provider host record_type s =
    get (ddns_state_key zone provider host record_type) s.ddns

abbrev pub state_domain : DdnsSyncState → Text
state_domain state = if state.domain == [] then state.zone else state.domain

-- the comparison of ListDDNSSyncStates
abbrev pub le_state : DdnsSyncState → DdnsSyncState → Bool
le_state =
    by_key_then state_domain
      (by_key_then (λ s. s.provider) (by_key_then (λ s. s.host) (by_key (λ s. s.record_type))))

unfoldable pub list_ddns_sync_states : MemoryStore → List DdnsSyncState
list_ddns_sync_states s = sort le_state (values s.ddns)

-- Deploy targets
unfoldable pub replace_deploy_targets : List DeployTarget → MemoryStore → MemoryStore
replace_deploy_targets targets s = record s { targets = keyed_map targets (λ t. t.name) }

unfoldable pub put_deploy_target : DeployTarget → MemoryStore → MemoryStore
put_deploy_target t s = record s { targets = put t.name t s.targets }

unfoldable pub get_deploy_target : Text → MemoryStore → Option DeployTarget
get_deploy_target name s = get name s.targets

unfoldable pub delete_deploy_target : Text → MemoryStore → MemoryStore
delete_deploy_target name s = record s { targets = delete name s.targets }

unfoldable pub list_deploy_targets : MemoryStore → List DeployTarget
list_deploy_targets s = sorted_by (λ t. t.name) s.targets

-- Certificate bundles
unfoldable pub put_bundle : CertificateBundle → MemoryStore → MemoryStore
put_bundle bundle s = record s { bundles = put bundle.name bundle s.bundles }

unfoldable pub get_bundle : Text → MemoryStore → Option CertificateBundle
get_bundle name s = get name s.bundles

unfoldable pub delete_bundle : Text → MemoryStore → MemoryStore
delete_bundle name s = record s { bundles = delete name s.bundles }

unfoldable pub list_bundles : MemoryStore → List CertificateBundle
list_bundles s = sorted_by (λ bundle. bundle.name) s.bundles

-- Runs, in the order in which they were appended
unfoldable pub append_deploy_run : DeployRun → MemoryStore → MemoryStore
append_deploy_run run s = record s { deploys = s.deploys ++ run ∷ [] }

unfoldable pub list_deploy_runs : MemoryStore → List DeployRun
list_deploy_runs s = s.deploys

unfoldable pub append_job_run : JobRun → MemoryStore → MemoryStore
append_job_run run s = record s { jobs = s.jobs ++ run ∷ [] }

unfoldable pub list_job_runs : MemoryStore → List JobRun
list_job_runs s = s.jobs
