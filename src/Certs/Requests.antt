-- ===== src/Certs/Requests.antt =====
-- internal/certs/acme/manager.go: what is requested for a zone, when a certificate is renewed, and the
-- checks before a DNS challenge. The ACME client, the files, the X.509 parser and the clock are
-- parameters, as is `path/filepath`.
pub mod Renewal
use domux.Prelude.{
  ℕ, Bool, true, false, not, ◌||◌, Option, none, some, List, [], ◌∷◌, ◌++◌, ◌+◌, ◌-◌, if◌then◌else◌,
  map, ltb, nat_eq,
}
use domux.Prelude.Int.{ℤ, pos, negsuc, is_zero}
use domux.Prelude.Result.{Result, ok, err, ◌>>=◌}
use domux.Text.{Text, codes, ◌==◌, trim_suffix}
use domux.Core.Types.{
  Time, Duration, ManagedZone, CertificatePlan, CertificateBundle, default_certificate_renew_before,
}
use domux.Core.Names.{dot, domain_within_managed_domain}
use domux.Core.Zone.{ZoneError, validate, certificate_plans}
use domux.Core.Bundles.{ItemError, validate_bundle}
use domux.Dns.AuthZone.{ResolveError, resolve_auth_zone}
use domux.Ddns.Errors.{
  Error, wrap_zone_access_denied, wrap_target_outside_managed_domain, is_access_denied,
}

pub record IssueRequest : Type 0 where
  pub bundle_name : Text
  pub domain : Text
  pub domains : List Text
  pub email : Text
  pub dns_provider : Text
  pub renew_before : Duration
  pub deploy_targets : List Text

pub data RequestError : Type 0 where
  policy_disabled : RequestError
  bad_zone : ZoneError → RequestError

unfoldable pub request_of : ManagedZone → CertificatePlan → IssueRequest
request_of zone plan = record {
  bundle_name = plan.name;
  domain = zone.domain;
  domains = plan.domains;
  email = zone.certificate.email;
  dns_provider = zone.certificate.dns_provider;
  renew_before = plan.renew_before;
  deploy_targets = plan.deploy_targets;
}

-- BuildRequests; the zone is the method's own copy.
unfoldable pub build_requests : ManagedZone → Result RequestError (List IssueRequest)
unfolding request_of
build_requests zone =
    let (z, failed) = validate zone in
    if zone.certificate.enabled
    then elim failed [
      | some e ↦ err (bad_zone e)
      | none ↦ elim (certificate_plans z) [
        | err e ↦ err (bad_zone e)
        | ok plans ↦ ok (map (request_of z) plans)
      ]
    ]
    else err policy_disabled

-- RenewalTime, at or after the zero time; the duration is subtracted.
unfoldable pub renewal_time : Time → Duration → Time
renewal_time not_after renew_before =
    elim (if is_zero renew_before then default_certificate_renew_before else renew_before) [
      | pos d ↦ not_after - d
      | negsuc d ↦ not_after + (d + 1)
    ]

-- ShouldRenew
unfoldable pub should_renew : CertificateBundle → Time → Duration → Bool
unfolding renewal_time
should_renew bundle now renew_before =
    if nat_eq bundle.not_after 0
    then true
    else not (ltb now (renewal_time bundle.not_after renew_before))

-- What the manager uses: path/filepath, strings.NewReplacer for colons, the test for a missing file, the
-- end of the leaf of a key pair and of a certificate, and the ACME order
pub record Acme (Failure : Type 0) : Type 0 where
  pub join_path : List Text → Text
  pub clean : Text → Text
  pub base : Text → Text
  pub separator : Text
  pub replace_colons : Text → Text
  pub key_pair : Text → Text → Result Failure Time
  pub is_not_exist : Failure → Bool
  pub obtain : IssueRequest → Result Failure (Text × Text)
  pub not_after : Text → Result Failure Time

pub data EnsureError (Failure : Type 0) : Type 0 where
  failed : Failure → EnsureError Failure
  invalid : ItemError Failure → EnsureError Failure

module _ {Failure : Type 0} (acme : Acme Failure) (data_dir : Text) where
  unfoldable pub sanitize_name : Text → Text
  sanitize_name value =
      let name = acme.base (acme.clean value) in
      if name == dot || name == acme.separator then codes "default" else name

  unfoldable pub storage_name_for_bundle : Text → Text
  unfolding sanitize_name
  storage_name_for_bundle name = acme.replace_colons (sanitize_name name)

  -- the files of a bundle
  unfoldable pub cert_path : Text → Text
  unfolding storage_name_for_bundle
  cert_path name =
      acme.join_path
        (data_dir ∷ codes "certs" ∷ storage_name_for_bundle name ∷ codes "fullchain.pem" ∷ [])

  unfoldable pub key_path : Text → Text
  unfolding storage_name_for_bundle
  key_path name =
      acme.join_path
        (data_dir ∷ codes "certs" ∷ storage_name_for_bundle name ∷ codes "privkey.pem" ∷ [])

  -- the bundle of a request, for a certificate that ends at the time
  abbrev pub bundle_of : IssueRequest → Time → CertificateBundle
  bundle_of req end = record {
    name = req.bundle_name;
    domain = req.domain;
    zone = req.domain;
    domains = req.domains;
    deploy_targets = req.deploy_targets;
    cert_path = cert_path req.bundle_name;
    key_path = key_path req.bundle_name;
    not_after = end;
  }
