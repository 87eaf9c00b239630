-- ===== src/Config/Checks/Whole.antt =====
-- Validate as a whole.
pub mod Parts
pub mod Sound
use domux.Prelude.{
  Bool, true, false, ltb, ◌&&◌, not, Option, none, some, List, [], ◌∷◌, ◌++◌, map, if◌then◌else◌,
}
use domux.Prelude.Result.{Result}
use domux.Text.{Text, ◌==◌, trim_space}
use domux.Core.Types.{ManagedZone}
use domux.Core.Runtime.{Env, validate_source}
use domux.Core.Zone.{validate}
use domux.Providers.Options.{ProviderError}
use domux.Providers.Registry.{Challenges, Registry, new_builtin_registry}
use domux.Config.{Config, ServerConfig, is_unset}
use domux.Config.Checks.{
  ConfigError, no_registry, api_addr_required, data_dir_required, several_defaults, invalid_runtime,
  list_of, scan, validate_auth, validate_public_ip, check_agent, check_target, check_target_agents,
  check_provider, check_provider_options, provider_refs,
}
use domux.Config.Checks.Zones.{Seen, check_zones}
use domux.Config.Checks.Apps.{check_apps}

-- the server section that Validate looks at, which is its own copy
unfoldable pub effective_server : Config → ServerConfig
effective_server c = record c.server {
  data_dir =
      if trim_space c.server.data_dir == [] && not (trim_space c.data_dir == [])
      then c.data_dir
      else c.server.data_dir;
  public_ip = if is_unset c.server.public_ip then c.public_ip else c.server.public_ip;
}

-- the zones after Validate, which writes the defaults of its zones into the caller's slice
unfoldable pub defaulted : List ManagedZone → List ManagedZone
defaulted zones = map (λ (z : ManagedZone). (validate z).0) zones

module _ {ParseError : Type 0} where
  unfoldable pub check_server : ServerConfig → List (ConfigError ParseError)
  check_server s =
      (if s.api_addr == [] then api_addr_required ∷ [] else [])
      ++ (list_of (λ e. e) (validate_auth s.auth)
          ++ ((if s.data_dir == [] then data_dir_required ∷ [] else [])
              ++ list_of (λ e. e) (validate_public_ip s.public_ip)))

module _ {ParseError Challenge : Type 0} (env : Env)
    (parse : Text → Result ParseError (Text × Text)) where
  -- Validate after the registry is made
  unfoldable pub check_sections : Registry Challenge → Config → List (ConfigError ParseError)
  unfolding check_server
  check_sections registry c =
      let server = effective_server c in
      let providers = scan (check_provider registry) [] c.ddns_providers in
      let agents = scan check_agent [] c.agents in
      let targets = scan check_target [] c.deploy_targets in
      let zones = check_zones registry (provider_refs c.ddns_providers) targets.1 c.zones in
      check_server server
      ++ (providers.0
          ++ (list_of invalid_runtime (validate_source env server.runtime)
              ++ (agents.0
                  ++ (targets.0
                      ++ (check_target_agents agents.1 c.deploy_targets
                          ++ (zones.0
                              ++ ((if ltb 1 zones.1.defaults then several_defaults ∷ [] else [])
                                  ++ (check_apps parse zones.1.by_domain agents.1 c.apps
                                      ++ check_provider_options registry c.ddns_providers))))))))

  -- Validate
  unfoldable pub validate_config : Challenges Challenge → Config → List (ConfigError ParseError)
  unfolding check_sections
  validate_config challenges c =
      let (registry, failed) = new_builtin_registry challenges in
      elim failed [ some e ↦ no_registry e ∷ [] | none ↦ check_sections registry c ]
