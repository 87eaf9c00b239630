-- ===== src/Core/Zone.antt =====
pub mod Loop
pub mod Described
pub mod Plans
pub mod Hosts
pub mod Validation
-- ManagedZone in internal/core/types.go: host names, the default zone, validation and the
-- certificate plans.
use domux.Prelude.{
  Bool, true, false, ◌&&◌, Option, none, some, List, [], ◌∷◌, ◌++◌, if◌then◌else◌, is_empty,
}
use domux.Prelude.Int.{is_zero}
use domux.Prelude.Result.{Result, ok, err, error, ◌>>=◌}
use domux.Text.{Text, codes, ◌==◌, trim_space}
use domux.Core.Types.{
  Duration, ManagedZone, CertificatePlan, CertificateBundlePolicy, DdnsZoneConfig,
  CertificatePolicy, default_ddns_ttl, default_certificate_renew_before,
}
use domux.Core.Names.{
  elem, compact_names, domain_within_managed_domain, qualified_bundle_name, dot, star_dot,
}

-- The errors of Validate and CertificatePlans, with what their messages quote.
pub data ZoneError : Type 0 where
  domain_required : ZoneError
  provider_refs_required email_required dns_provider_required : Text → ZoneError
  bundle_name_required : Text → ZoneError
  duplicate_bundle : Text → Text → ZoneError
  outside_zone : Text → Text → Text → ZoneError

-- Hostname
unfoldable pub hostname : ManagedZone → Text → Text
hostname z subdomain =
    let sub = trim_space subdomain in if sub == [] then z.domain else sub ++ b'.' ∷ z.domain

-- The loop of DefaultManagedZone
unfoldable pub first_default : List ManagedZone → Option ManagedZone
first_default [] = none
first_default (z ∷ zones) = if z.default then some z else first_default zones

only_zone : List ManagedZone → Option ManagedZone
only_zone (z ∷ []) = some z
only_zone _ = none

unfoldable pub default_managed_zone : List ManagedZone → Option ManagedZone
unfolding first_default only_zone
default_managed_zone zones = elim (first_default zones) [ some z ↦ some z | none ↦ only_zone zones ]

unfoldable pub default_managed_zone_name : List ManagedZone → Text
unfolding default_managed_zone
default_managed_zone_name zones = elim (default_managed_zone zones) [
  | some z ↦ z.domain
  | none ↦ []
]

-- domainsForManagedZone
unfoldable pub domains_for_managed_zone : ManagedZone → List Text
domains_for_managed_zone z =
    compact_names (if z.wildcard then z.domain ∷ (star_dot ++ z.domain) ∷ [] else z.domain ∷ [])

-- The inner loop of CertificatePlans: the first domain that is outside the zone.
unfoldable pub first_outside : Text → List Text → Option Text
first_outside zone_domain [] = none
first_outside zone_domain (d ∷ ds) =
    if domain_within_managed_domain zone_domain d then first_outside zone_domain ds else some d

-- What the loop of CertificatePlans reads.
pub record PlanDefaults : Type 0 where
  pub zone : Text
  pub zone_domain : Text
  pub renew_before : Duration
  pub domains : List Text
  pub targets : List Text

abbrev pub or_default : List Text → List Text → List Text
or_default xs default = if is_empty xs then default else xs

-- One bundle, without the test for duplicates.
unfoldable pub plan_of : PlanDefaults → CertificateBundlePolicy → CertificatePlan
plan_of c bundle = record {
  name = qualified_bundle_name c.zone bundle.name;
  domains = or_default (compact_names bundle.domains) c.domains;
  renew_before = if is_zero bundle.renew_before then c.renew_before else bundle.renew_before;
  deploy_targets = or_default (compact_names bundle.deploy_targets) c.targets;
}

-- The checks of one round, in their order, and the rest of the loop.
plan_round :
    PlanDefaults
    → List Text
    → CertificateBundlePolicy
    → Result ZoneError (List CertificatePlan)
    → Result ZoneError (List CertificatePlan)
unfolding plan_of
plan_round c seen bundle rest =
    let plan = plan_of c bundle in
    if plan.name == c.zone && trim_space bundle.name == []
    then err (bundle_name_required c.zone)
    else if elem plan.name seen
    then err (duplicate_bundle c.zone plan.name)
    else elim (first_outside c.zone_domain plan.domains) [
      | some d ↦ err (outside_zone c.zone plan.name d)
      | none ↦ do plans ← rest; ok (plan ∷ plans)
    ]

-- The loop of CertificatePlans. The bundles after a refused one are not looked at: their result is
-- dropped with `rest`.
unfoldable pub plan_loop :
    PlanDefaults
    → List Text
    → List CertificateBundlePolicy
    → Result ZoneError (List CertificatePlan)
unfolding plan_round
plan_loop c seen [] = ok []
plan_loop c seen (bundle ∷ bundles) =
    plan_round c seen bundle (plan_loop c (qualified_bundle_name c.zone bundle.name ∷ seen) bundles)

-- The defaults that CertificatePlans takes from the zone
unfoldable pub plan_defaults : ManagedZone → PlanDefaults
plan_defaults z = record {
  zone = z.name;
  zone_domain = z.domain;
  renew_before =
      if is_zero z.certificate.renew_before
      then default_certificate_renew_before
      else z.certificate.renew_before;
  domains = domains_for_managed_zone z;
  targets = compact_names z.certificate.deploy_targets;
}

unfoldable pub certificate_plans : ManagedZone → Result ZoneError (List CertificatePlan)
certificate_plans z =
    let c = plan_defaults z in
    if z.certificate.enabled
    then if is_empty z.certificate.bundles
      then ok (
          record {
            name = z.name;
            domains = c.domains;
            renew_before = c.renew_before;
            deploy_targets = c.targets;
          }
          ∷ [])
      else plan_loop c [] z.certificate.bundles
    else ok []

-- The three defaults that Validate writes into the zone
with_name : ManagedZone → ManagedZone
with_name z = if z.name == [] then record z { name = trim_space z.domain } else z

with_ttl : ManagedZone → ManagedZone
with_ttl z =
    if is_zero z.ddns.ttl then record z { ddns = record z.ddns { ttl = default_ddns_ttl } } else z

with_renew_before : ManagedZone → ManagedZone
with_renew_before z =
    if is_zero z.certificate.renew_before
    then record z {
      certificate = record z.certificate { renew_before = default_certificate_renew_before };
    }
    else z

-- The part of Validate about certificates
validate_certificate : ManagedZone → ManagedZone × Option ZoneError
unfolding with_renew_before
validate_certificate z =
    if z.certificate.enabled
    then if z.certificate.email == []
      then (z, some (email_required z.domain))
      else if z.certificate.dns_provider == []
      then (z, some (dns_provider_required z.domain))
      else (let z' = with_renew_before z in (z', error (certificate_plans z')))
    else (z, none)

-- Validate writes into its receiver, also where it returns an error afterwards.
unfoldable pub validate : ManagedZone → ManagedZone × Option ZoneError
unfolding with_name with_ttl validate_certificate
validate z =
    let z' = with_name z in
    if z.domain == []
    then (z, some domain_required)
    else if z'.ddns.enabled
    then if is_empty z'.ddns.provider_refs
      then (z', some (provider_refs_required z'.domain))
      else validate_certificate (with_ttl z')
    else validate_certificate z'
