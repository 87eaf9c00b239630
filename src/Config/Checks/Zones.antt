-- ===== src/Config/Checks/Zones.antt =====
-- The loop of Validate over the zones. The source's set of used providers is never read and is left
-- out.
pub mod Sound
use domux.Prelude.{
  ℕ, suc, Bool, true, false, not, ◌&&◌, Option, none, some, List, [], ◌∷◌, ◌++◌, if◌then◌else◌,
  is_some,
}
use domux.Prelude.Result.{ok, err}
use domux.Text.{Text}
use domux.Mapping.{Mapping, get, put}
use domux.Core.Types.{ManagedZone, CertificatePlan, DdnsProviderConfig}
use domux.Core.Names.{elem}
use domux.Core.Zone.{validate, certificate_plans}
use domux.Providers.Registry.{
  Registry, exists, supports_record_type, record_type_a, record_type_aaaa,
}
use domux.Config.Checks.{
  ConfigError, invalid_zone, duplicate_domain, unknown_provider, unsupported_provider, no_ipv4,
  no_ipv6, unknown_certificate_provider, unsupported_certificate_provider, unknown_target, scan,
}

-- What the loop has seen: `seenDomains`, `zonesByDomain` and `defaultZones`
pub record Seen : Type 0 where
  pub domains : List Text
  pub by_domain : Mapping ManagedZone
  pub defaults : ℕ

abbrev pub nothing_seen : Seen
nothing_seen = record { domains = []; by_domain = []; defaults = 0 }

-- the variables after a zone is accepted as one of its own domain
unfoldable pub see : ManagedZone → Seen → Seen
see z s = record {
  domains = z.domain ∷ s.domains;
  by_domain = put z.domain z s.by_domain;
  defaults = if z.default then suc s.defaults else s.defaults;
}

module _ {ParseError Challenge : Type 0} (registry : Registry Challenge)
    (refs : Mapping DdnsProviderConfig) where
  -- A round of the loop over the provider references of a zone
  unfoldable pub check_reference : ManagedZone → Text → List (ConfigError ParseError)
  check_reference z ref = elim (get ref refs) [
    | none ↦ unknown_provider z.domain ref ∷ []
    | some p ↦
        if exists p.type registry
        then (if z.ddns.ipv4 && not (supports_record_type p.type record_type_a registry)
            then no_ipv4 z.domain ref ∷ []
            else [])
          ++ (if z.ddns.ipv6 && not (supports_record_type p.type record_type_aaaa registry)
              then no_ipv6 z.domain ref ∷ []
              else [])
        else unsupported_provider z.domain ref p.type ∷ []
  ]

  unfoldable pub check_references : ManagedZone → List Text → List (ConfigError ParseError)
  check_references z [] = []
  check_references z (ref ∷ more) = check_reference z ref ++ check_references z more

  -- the provider that a zone's certificate names
  unfoldable pub check_certificate_provider : ManagedZone → List (ConfigError ParseError)
  check_certificate_provider z = elim (get z.certificate.dns_provider refs) [
    | none ↦ unknown_certificate_provider z.domain z.certificate.dns_provider ∷ []
    | some p ↦
        if exists p.type registry
        then []
        else unsupported_certificate_provider z.domain z.certificate.dns_provider p.type ∷ []
  ]

  -- the targets of one plan
  unfoldable pub check_plan_targets :
      ManagedZone → List Text → Text → List Text → List (ConfigError ParseError)
  check_plan_targets z known bundle [] = []
  check_plan_targets z known bundle (t ∷ ts) =
      let rest = check_plan_targets z known bundle ts in
      if elem t known then rest else unknown_target z.domain bundle t ∷ rest

  unfoldable pub check_plans :
      ManagedZone → List Text → List CertificatePlan → List (ConfigError ParseError)
  unfolding check_plan_targets
  check_plans z known [] = []
  check_plans z known (plan ∷ plans) =
      check_plan_targets z known plan.name plan.deploy_targets ++ check_plans z known plans

  unfoldable pub check_certificate : List Text → ManagedZone → List (ConfigError ParseError)
  unfolding check_certificate_provider check_plans
  check_certificate known z =
      if z.certificate.enabled
      then elim (certificate_plans z) [
        | err e ↦ invalid_zone e ∷ []
        | ok plans ↦ check_certificate_provider z ++ check_plans z known plans
      ]
      else []

  -- A round of the loop, for a zone and what its own Validate returns
  unfoldable pub check_zone : List Text → Seen → ManagedZone → List (ConfigError ParseError) × Seen
  unfolding check_references check_certificate see
  check_zone known s z =
      let (z', invalid) = validate z in
      elim invalid [
        | some e ↦ (invalid_zone e ∷ [], s)
        | none ↦
            if elem z'.domain s.domains
            then (duplicate_domain z'.domain ∷ [], s)
            else (check_references z' z'.ddns.provider_refs ++ check_certificate known z', see z' s)
      ]

  unfoldable pub check_zones : List Text → List ManagedZone → List (ConfigError ParseError) × Seen
  unfolding check_zone scan
  check_zones known zones = scan (check_zone known) nothing_seen zones
