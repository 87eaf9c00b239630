-- ===== src/Core/Zone/Validation.antt =====
-- ManagedZone.Validate.
use domux.Prelude.{◌≡◌, ◌≢◌, false, none, [], arith, is_empty, ◌⊎◌, Bool-cases}
use domux.Prelude.Int.{is_zero}
use domux.Prelude.Result.{error}
use domux.Text.Equality.{eq_iff}
use domux.Core.Types.{ManagedZone}
use domux.Core.Zone.{
  validate, validate_certificate, with_name, with_ttl, with_renew_before, certificate_plans,
}

-- What Validate checks of the certificate policy.
pub record IsCertifiable (z : ManagedZone) : Type 0 where
  pub email : (z.certificate.enabled ≡ false) ⊎ (z.certificate.email ≢ [])
  pub dns_provider : (z.certificate.enabled ≡ false) ⊎ (z.certificate.dns_provider ≢ [])
  pub renew_before : (z.certificate.enabled ≡ false) ⊎ (is_zero z.certificate.renew_before ≡ false)
  pub plans : (z.certificate.enabled ≡ false) ⊎ (error (certificate_plans z) ≡ none)

-- A zone that the other components can rely on.
pub record IsValid (z : ManagedZone) : Type 0 where
  pub domain : z.domain ≢ []
  pub provider_refs : (z.ddns.enabled ≡ false) ⊎ (is_empty z.ddns.provider_refs ≡ false)
  pub ttl : (z.ddns.enabled ≡ false) ⊎ (is_zero z.ddns.ttl ≡ false)
  pub certifiable : IsCertifiable z

renewed : (z : ManagedZone) → is_zero (with_renew_before z).certificate.renew_before ≡ false
unfolding with_renew_before
renewed z = ground arith

certificate-IsCertifiable :
    (z z' : ManagedZone)
    → validate_certificate z ≡ (z', none)
    → IsCertifiable z' × (z'.ddns ≡ z.ddns) × (z'.domain ≡ z.domain)
unfolding validate_certificate
certificate-IsCertifiable z z' h = ground (
  arith,
  eq_iff z.certificate.email [],
  eq_iff z.certificate.dns_provider [],
  renewed z,
  Bool-cases z.certificate.enabled,
)

-- When Validate returns no error, the zone that it leaves is valid and has the domain it had.
pub validate-IsValid :
    (z z' : ManagedZone) → validate z ≡ (z', none) → IsValid z' × (z'.domain ≡ z.domain)
unfolding validate
validate-IsValid z z' h = ground (
  arith,
  eq_iff z.domain [],
  Bool-cases z.ddns.enabled,
  certificate-IsCertifiable (with_name z) z',
  certificate-IsCertifiable (with_ttl (with_name z)) z',
)
