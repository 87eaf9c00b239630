-- ===== src/Tests/Naming.antt =====
-- The theorems on names, zones and runtimes, applied.
use domux.Prelude.{◌≡◌, ◌≢◌, ◌↔◌, refl, Bool, true, none, List, [], ◌∷◌, ◌++◌, map}
use domux.Prelude.Result.{ok}
use domux.Text.{
  Text, codes, ◌==◌, trim_space, trim_left, trim_right, is_space, trim_prefix, trim_suffix,
  cut_prefix, cut_suffix, has_prefix, has_suffix, split, join,
}
use domux.Core.Names.{compact_names, qualified_bundle_name, domain_within_managed_domain}
use domux.Core.Names.Within.{labels, target_name, managed_name, domain_within_managed_domain_iff}
use domux.Core.Zone.{
  certificate_plans, plan_of, plan_defaults, plan_loop, first_outside, hostname, validate,
}
use domux.Core.Zone.Plans.{ArePlans, certificate_plans_iff}
use domux.Core.Zone.Hosts.{IsPlainDomain, hostname-domain_within_managed_domain}
use domux.Core.Zone.Validation.{IsValid, validate-IsValid}
use domux.Dns.AuthZone.{
  resolve_auth_zone, candidates, candidate_zones, first_zone, normalize_dns_name,
}
use domux.Dns.AuthZone.Longest.{IsAuthZone, resolve_auth_zone-IsAuthZone}
use domux.Dns.RecordName.{RecordName, resolve_record_name, ali_dns_sub_domain, trim_dot, apex}
use domux.Dns.RecordName.Relative.{resolve_record_name-append, is_ok, is_ok-resolve_record_name}
use domux.Tests.{example_org, app_example_org, zone}

domain_within_managed_domain_iff_example :
    (domain_within_managed_domain example_org app_example_org ≡ true) ↔ (
      (front : List Text) × (labels (target_name app_example_org)
        ≡ front ++ labels (managed_name example_org)))
domain_within_managed_domain_iff_example =
    domain_within_managed_domain_iff example_org app_example_org

certificate_plans_iff_example :
    (certificate_plans zone ≡ ok (map (plan_of (plan_defaults zone)) zone.certificate.bundles))
    ↔ ArePlans zone (map (plan_of (plan_defaults zone)) zone.certificate.bundles)
certificate_plans_iff_example =
    certificate_plans_iff zone (map (plan_of (plan_defaults zone)) zone.certificate.bundles) refl
      refl

example_org-IsPlainDomain : IsPlainDomain example_org
unfolding trim_space trim_left trim_right is_space trim_prefix trim_suffix cut_prefix cut_suffix
    has_prefix has_suffix ◌==◌
example_org-IsPlainDomain = record { trimmed = refl; filled = cc; no_star = refl }

hostname-domain_within_managed_domain_example :
    domain_within_managed_domain example_org (hostname zone (codes "app")) ≡ true
hostname-domain_within_managed_domain_example =
    hostname-domain_within_managed_domain zone (codes "app") example_org-IsPlainDomain

zone_accepted : validate zone ≡ (zone, none)
unfolding trim_space trim_left trim_right is_space trim_prefix trim_suffix cut_prefix cut_suffix
    has_prefix has_suffix ◌==◌ validate certificate_plans domain_within_managed_domain
    qualified_bundle_name compact_names first_outside plan_loop plan_defaults plan_of
zone_accepted = refl

validate-IsValid_example : IsValid zone × (zone.domain ≡ zone.domain)
validate-IsValid_example = validate-IsValid zone zone zone_accepted

abbrev has_ns : Text → Bool
has_ns name = name == example_org

found_zone : resolve_auth_zone has_ns app_example_org ≡ ok example_org
unfolding trim_space trim_left trim_right is_space trim_prefix trim_suffix cut_prefix cut_suffix
    has_prefix has_suffix ◌==◌ resolve_auth_zone normalize_dns_name candidates candidate_zones
    first_zone split join
found_zone = refl

resolve_auth_zone-IsAuthZone_example :
    IsAuthZone has_ns (split b'.' (normalize_dns_name app_example_org)) example_org
resolve_auth_zone-IsAuthZone_example =
    resolve_auth_zone-IsAuthZone has_ns app_example_org example_org found_zone

org_filled : example_org ≢ []
org_filled = cc

app_filled : codes "app" ≢ []
app_filled = cc

app_not_apex : codes "app" ≢ apex
app_not_apex = cc

resolve_record_name-append_example :
    (r : RecordName) × (resolve_record_name example_org (codes "app" ++ b'.' ∷ example_org) ≡ ok r)
    × (r.relative ≡ codes "app")
    × (r.zone ≡ example_org)
    × (ali_dns_sub_domain r ≡ codes "app" ++ b'.' ∷ example_org)
unfolding trim_space trim_left trim_right is_space trim_prefix trim_suffix cut_prefix cut_suffix
    has_prefix has_suffix ◌==◌ trim_dot
resolve_record_name-append_example =
    resolve_record_name-append example_org (codes "app") org_filled refl refl app_filled refl
      app_not_apex

org_bare_filled : trim_dot (trim_space example_org) ≢ []
unfolding trim_space trim_left trim_right is_space trim_prefix trim_suffix cut_prefix cut_suffix
    has_prefix has_suffix ◌==◌ trim_dot
org_bare_filled = cc

app_bare_filled : trim_dot (trim_space app_example_org) ≢ []
unfolding trim_space trim_left trim_right is_space trim_prefix trim_suffix cut_prefix cut_suffix
    has_prefix has_suffix ◌==◌ trim_dot
app_bare_filled = cc

is_ok-resolve_record_name_example :
    is_ok (resolve_record_name example_org app_example_org)
    ≡ domain_within_managed_domain example_org app_example_org
unfolding trim_space trim_left trim_right is_space trim_prefix trim_suffix cut_prefix cut_suffix
    has_prefix has_suffix ◌==◌ trim_dot
is_ok-resolve_record_name_example =
    is_ok-resolve_record_name example_org app_example_org org_bare_filled app_bare_filled refl
