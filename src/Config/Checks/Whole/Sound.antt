-- ===== src/Config/Checks/Whole/Sound.antt =====
-- What a configuration that Validate accepts satisfies.
use domux.Prelude.{◌≡◌, sym, ◌∙◌, true, ltb, List, [], ◌∷◌, arith, if◌then◌else◌, All, All-map}
use domux.Prelude.Result.{Result}
use domux.Text.{Text}
use domux.Core.Types.{CustomApp, DeployTarget}
use domux.Core.Runtime.{Env, validate_source}
use domux.Config.File.{app_key}
use domux.Providers.Registry.{Registry, Challenges, new_builtin_registry, new_updater}
use domux.Providers.Registry.Builtin.{
  is_ok, new_builtin_registry-none, new_updater-validate_updater,
}
use domux.Config.{Config}
use domux.Config.Checks.{
  ConfigError, scan, list_of, check_agent, check_target, check_target_agents, check_provider,
  provider_refs, invalid_runtime, several_defaults,
}
use domux.Config.Checks.Scans.{Fresh-Distinct, append-nil_left, append-nil_right}
use domux.Config.Checks.Coherent.{IsCoherent, IsOffered, refs_of}
use domux.Config.Checks.Zones.{check_zones}
use domux.Config.Checks.Zones.Sound.{check_zones-nil}
use domux.Config.Checks.Apps.{check_apps}
use domux.Config.Checks.Apps.Sound.{check_apps-nil}
use domux.Config.Checks.Whole.{
  check_server, check_sections, validate_config, defaulted, effective_server,
}
use domux.Config.Checks.Whole.Parts.{
  provider_refs-elem, zone_at-elem, check_target_agents-nil, check_provider_options-nil,
  IsPlaced-same, at_most_one, scan-agents, scan-targets, scan-providers, known_as,
}

module _ {ParseError Challenge : Type 0} (env : Env)
    (parse : Text → Result ParseError (Text × Text)) where
  check_sections-IsCoherent :
      (registry : Registry Challenge) (c : Config)
      → check_sections env parse registry c ≡ []
      → IsCoherent registry (defaulted c.zones) c
  unfolding check_sections
  check_sections-IsCoherent registry c h =
      let server = check_server {ParseError = ParseError} (effective_server c) in
      let providers =
        scan (check_provider {ParseError = ParseError} registry) [] c.ddns_providers in
      let agents = scan (check_agent {ParseError = ParseError}) [] c.agents in
      let targets = scan (check_target {ParseError = ParseError}) [] c.deploy_targets in
      let zones =
        check_zones {ParseError = ParseError} registry (provider_refs c.ddns_providers) targets.1
          c.zones in
      let h1 = append-nil_right server _ h in
      let h2 = append-nil_right providers.0 _ h1 in
      let h3 =
        append-nil_right {E = ConfigError ParseError}
          (list_of invalid_runtime (validate_source env (effective_server c).runtime)) _ h2 in
      let h4 = append-nil_right agents.0 _ h3 in
      let h5 = append-nil_right targets.0 _ h4 in
      let nodes = check_target_agents {ParseError = ParseError} agents.1 c.deploy_targets in
      let h6 = append-nil_right nodes _ h5 in
      let h7 = append-nil_right zones.0 _ h6 in
      let several : List (ConfigError ParseError) =
        if ltb 1 zones.1.defaults then several_defaults ∷ [] else [] in
      let h8 = append-nil_right several _ h7 in
      let apps = check_apps parse zones.1.by_domain agents.1 c.apps in
      let p = scan-providers registry c.ddns_providers (append-nil_left providers.0 _ h1) in
      let n = scan-agents c.agents (append-nil_left agents.0 _ h3) in
      let t = scan-targets c.deploy_targets (append-nil_left targets.0 _ h4) in
      let z =
        check_zones-nil registry (provider_refs c.ddns_providers) (refs_of c.ddns_providers)
          targets.1 (provider_refs-elem c.ddns_providers) c.zones (append-nil_left zones.0 _ h6) in
      let a =
        check_apps-nil parse zones.1.by_domain agents.1 (defaulted c.zones) z.1.1 c.apps
          (append-nil_left apps _ h8) in
      record {
        providers = p.0;
        offered =
            check_provider_options-nil registry c.ddns_providers p.1 (append-nil_right apps _ h8);
        agents = n.0;
        targets = t.0;
        nodes =
            All-map (λ (x : DeployTarget) there. known_as _ agents.1 _ x.agent.node n.1 there)
              c.deploy_targets
              (check_target_agents-nil agents.1 c.deploy_targets (append-nil_left nodes _ h5));
        domains = Fresh-Distinct _ z.0.0;
        placed = All-map (IsPlaced-same _ targets.1 _ t.1) (defaulted c.zones) z.0.1;
        default = at_most_one _ _ z.1.0 (append-nil_left several _ h7);
        apps = Fresh-Distinct _ a.0.0;
        homes =
            All-map
              (λ (x : CustomApp) there. sym (zone_at-elem (app_key x) (defaulted c.zones)) ∙ there)
              c.apps a.1.0;
        exits =
            All-map (λ (x : CustomApp) there. known_as _ agents.1 _ x.exit_node n.1 there) c.apps
              a.1.1;
        hosts = Fresh-Distinct _ a.0.1;
      }

  validate_config_lem :
      (challenges : Challenges Challenge) (c : Config)
      → validate_config env parse challenges c
        ≡ check_sections env parse (new_builtin_registry challenges).0 c
  unfolding validate_config
  validate_config_lem challenges c = ground (arith, new_builtin_registry-none challenges)

  -- A configuration for which Validate reports nothing fits together, with its zones as Validate
  -- leaves them: the names of providers, agents, targets, domains and apps and the hosts of apps are
  -- distinct, every reference between the sections leads somewhere, at most one zone is the default,
  -- and every provider is of a built-in type that accepts its options.
  pub validate_config-IsCoherent :
      (challenges : Challenges Challenge) (c : Config)
      → validate_config env parse challenges c ≡ []
      → IsCoherent (new_builtin_registry challenges).0 (defaulted c.zones) c
  validate_config-IsCoherent challenges c h =
      check_sections-IsCoherent (new_builtin_registry challenges).0 c
        (sym (validate_config_lem challenges c) ∙ h)

  -- For each provider of a configuration for which Validate reports nothing, the registry makes an
  -- updater.
  pub validate_config-new_updater :
      (challenges : Challenges Challenge) (c : Config)
      → validate_config env parse challenges c ≡ []
      → All
          (λ p. is_ok (new_updater p.type p.options (new_builtin_registry challenges).0) ≡ true)
          c.ddns_providers
  validate_config-new_updater challenges c h =
      let fits = validate_config-IsCoherent challenges c h in
      All-map
        (λ p (offered : IsOffered (new_builtin_registry challenges).0 p).
          new_updater-validate_updater challenges p.type p.options offered.updater)
        c.ddns_providers fits.offered
