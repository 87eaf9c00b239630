-- ===== src/Config/Checks.antt =====
-- The parts of Validate in internal/platform/config/config.go that look at one section each. The
-- errors are collected: a check gives the list of those it appends.
pub mod Zones
pub mod Apps
pub mod Whole
pub mod Scans
pub mod Coherent
use domux.Prelude.{Bool, false, ◌&&◌, ◌||◌, Option, none, some, List, [], ◌∷◌, ◌++◌, if◌then◌else◌}
use domux.Prelude.Int.{is_negative}
use domux.Text.{Text, ◌==◌, trim_space}
use domux.Mapping.{Mapping, put}
use domux.Core.Types.{DdnsProviderConfig, AgentNode, DeployTarget, transport_agent}
use domux.Core.Names.{elem}
use domux.Core.Bundles.{ItemError, validate_provider, validate_agent, validate_target}
use domux.Core.Runtime.{RuntimeError}
use domux.Core.Zone.{ZoneError}
use domux.Providers.Options.{ProviderError}
use domux.Providers.Registry.{Registry, exists, validate_updater, validate_challenge}
use domux.Config.{AuthConfig, PublicIpConfig}

-- The errors of Validate, with what their messages quote.
pub data ConfigError (ParseError : Type 0) : Type 0 where
  no_registry : ProviderError → ConfigError ParseError
  api_addr_required auth_incomplete data_dir_required : ConfigError ParseError
  negative_timeout empty_url several_defaults : ConfigError ParseError
  invalid_item : ItemError ParseError → ConfigError ParseError
  invalid_runtime : RuntimeError → ConfigError ParseError
  invalid_zone : ZoneError → ConfigError ParseError
  unsupported_type : Text → Text → ConfigError ParseError
  duplicate_provider duplicate_agent duplicate_target : Text → ConfigError ParseError
  duplicate_domain duplicate_app duplicate_host : Text → ConfigError ParseError
  unknown_agent unknown_provider unknown_domain unknown_exit_node :
      Text → Text → ConfigError ParseError
  unsupported_provider : Text → Text → Text → ConfigError ParseError
  no_ipv4 no_ipv6 : Text → Text → ConfigError ParseError
  unknown_certificate_provider : Text → Text → ConfigError ParseError
  unsupported_certificate_provider : Text → Text → Text → ConfigError ParseError
  unknown_target : Text → Text → Text → ConfigError ParseError
  invalid_updater invalid_challenge : Text → ProviderError → ConfigError ParseError

-- A `for` loop whose rounds append errors and change some variables
unfoldable pub scan : {E S A : Type 0} → (S → A → List E × S) → S → List A → List E × S
scan step s [] = ([], s)
scan step s (a ∷ rest) =
    let (found, s') = step s a in let (later, s'') = scan step s' rest in (found ++ later, s'')

abbrev pub list_of : {D E : Type 0} → (D → E) → Option D → List E
list_of f none = []
list_of f (some e) = f e ∷ []

-- A round of the loops over named items: an invalid one and a repeated one are reported, each other
-- one enters the set.
abbrev pub admit : {E : Type 0} → Option E → E → Text → List Text → List E × List Text
admit (some e) duplicate name seen = (e ∷ [], seen)
admit none duplicate name seen =
    if elem name seen then (duplicate ∷ [], seen) else ([], name ∷ seen)

-- some url is blank
unfoldable pub some_blank : List Text → Bool
some_blank [] = false
some_blank (url ∷ urls) = trim_space url == [] || some_blank urls

module _ {ParseError : Type 0} where
  -- AuthConfig.Validate
  unfoldable pub validate_auth : AuthConfig → Option (ConfigError ParseError)
  validate_auth c =
      if c.username == [] && c.password == []
      then none
      else if c.username == [] || c.password == []
      then some auth_incomplete
      else none

  -- PublicIPConfig.Validate
  unfoldable pub validate_public_ip : PublicIpConfig → Option (ConfigError ParseError)
  unfolding some_blank
  validate_public_ip c =
      if is_negative c.timeout
      then some negative_timeout
      else if some_blank (c.ipv4_urls ++ c.ipv6_urls)
      then some empty_url
      else none

  abbrev pub invalid : Option (ItemError ParseError) → Option (ConfigError ParseError)
  invalid none = none
  invalid (some e) = some (invalid_item e)

  unfoldable pub check_agent : List Text → AgentNode → List (ConfigError ParseError) × List Text
  check_agent seen n = admit (invalid (validate_agent n)) (duplicate_agent n.name) n.name seen

  unfoldable pub check_target : List Text → DeployTarget → List (ConfigError ParseError) × List Text
  check_target seen t = admit (invalid (validate_target t)) (duplicate_target t.name) t.name seen

  -- the loop over the deploy targets that looks for their agents
  unfoldable pub check_target_agents : List Text → List DeployTarget → List (ConfigError ParseError)
  check_target_agents agents [] = []
  check_target_agents agents (t ∷ ts) =
      let rest = check_target_agents agents ts in
      if t.transport == transport_agent
      then if elem t.agent.node agents then rest else unknown_agent t.name t.agent.node ∷ rest
      else rest

  module _ {Challenge : Type 0} (registry : Registry Challenge) where
    abbrev pub provider_error : DdnsProviderConfig → Option (ConfigError ParseError)
    provider_error p = elim (validate_provider p) [
      | some e ↦ some (invalid_item e)
      | none ↦ if exists p.type registry then none else some (unsupported_type p.ref p.type)
    ]

    unfoldable pub check_provider :
        List Text → DdnsProviderConfig → List (ConfigError ParseError) × List Text
    check_provider seen p = admit (provider_error p) (duplicate_provider p.ref) p.ref seen

    -- the last loop, over the options of the providers
    unfoldable pub check_provider_options : List DdnsProviderConfig → List (ConfigError ParseError)
    check_provider_options [] = []
    check_provider_options (p ∷ ps) =
        let rest = check_provider_options ps in
        if exists p.type registry
        then list_of (invalid_updater p.ref) (validate_updater p.type p.options registry)
          ++ (list_of (invalid_challenge p.ref) (validate_challenge p.type p.options registry)
              ++ rest)
        else rest

-- The loop of providerRefs
unfoldable pub put_refs :
    List DdnsProviderConfig → Mapping DdnsProviderConfig → Mapping DdnsProviderConfig
put_refs [] refs = refs
put_refs (p ∷ ps) refs = put_refs ps (put p.ref p refs)

unfoldable pub provider_refs : List DdnsProviderConfig → Mapping DdnsProviderConfig
unfolding put_refs
provider_refs providers = put_refs providers []
