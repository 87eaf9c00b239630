-- ===== src/Store/Calls.antt =====
-- Sequences of calls of the methods that change the store.
use domux.Prelude.{List, [], ◌∷◌}
use domux.Text.{Text}
use domux.Core.Types.{
  ManagedZone, DdnsProviderConfig, CustomApp, RuntimeSource, AgentNode, Application,
  DiscoveredRoute, DdnsSyncState, DeployTarget, CertificateBundle, DeployRun, JobRun,
}
use domux.Core.Runtime.{Env}
use domux.Store
use domux.Store.{MemoryStore}

-- A call of a method that changes the store.
pub data Call : Type 0 where
  replace_custom_apps : List CustomApp → Call
  put_custom_app : CustomApp → Call
  delete_custom_app : Text → Call
  replace_applications : List Application → Call
  replace_domains : List ManagedZone → Call
  put_domain : ManagedZone → Call
  delete_domain : Text → Call
  replace_ddns_providers : List DdnsProviderConfig → Call
  put_ddns_provider : DdnsProviderConfig → Call
  replace_runtimes : List RuntimeSource → Call
  put_runtime_source : RuntimeSource → Call
  replace_agents : List AgentNode → Call
  put_agent : AgentNode → Call
  put_pending_agent : AgentNode → Call
  delete_pending_agent : Text → Call
  replace_routes : List DiscoveredRoute → Call
  put_ddns_sync_state : DdnsSyncState → Call
  replace_deploy_targets : List DeployTarget → Call
  put_deploy_target : DeployTarget → Call
  delete_deploy_target : Text → Call
  put_bundle : CertificateBundle → Call
  delete_bundle : Text → Call
  append_deploy_run : DeployRun → Call
  append_job_run : JobRun → Call

unfoldable pub perform : Env → Call → MemoryStore → MemoryStore
perform env (replace_custom_apps apps) = Store.replace_custom_apps apps
perform env (put_custom_app app) = Store.put_custom_app app
perform env (delete_custom_app name) = Store.delete_custom_app name
perform env (replace_applications apps) = Store.replace_applications apps
perform env (replace_domains domains) = Store.replace_domains domains
perform env (put_domain domain) = Store.put_domain domain
perform env (delete_domain name) = Store.delete_domain name
perform env (replace_ddns_providers providers) = Store.replace_ddns_providers providers
perform env (put_ddns_provider p) = Store.put_ddns_provider p
perform env (replace_runtimes sources) = Store.replace_runtimes env sources
perform env (put_runtime_source source) = Store.put_runtime_source env source
perform env (replace_agents nodes) = Store.replace_agents nodes
perform env (put_agent node) = Store.put_agent node
perform env (put_pending_agent node) = Store.put_pending_agent node
perform env (delete_pending_agent name) = Store.delete_pending_agent name
perform env (replace_routes routes) = Store.replace_routes routes
perform env (put_ddns_sync_state state) = Store.put_ddns_sync_state state
perform env (replace_deploy_targets targets) = Store.replace_deploy_targets targets
perform env (put_deploy_target t) = Store.put_deploy_target t
perform env (delete_deploy_target name) = Store.delete_deploy_target name
perform env (put_bundle bundle) = Store.put_bundle bundle
perform env (delete_bundle name) = Store.delete_bundle name
perform env (append_deploy_run run) = Store.append_deploy_run run
perform env (append_job_run run) = Store.append_job_run run

unfoldable pub perform_all : Env → List Call → MemoryStore → MemoryStore
perform_all env [] s = s
perform_all env (c ∷ cs) s = perform_all env cs (perform env c s)
