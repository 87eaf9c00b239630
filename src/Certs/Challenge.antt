-- ===== src/Certs/Challenge.antt =====
-- managedDNS01Provider of internal/certs/acme/manager.go: the checks before a DNS challenge. The provider of
-- the ACME library, dns01.GetChallengeInfo and the resolver of zones are parameters.
pub mod Guarded
use domux.Prelude.{ℕ, Bool, true, false, Option, none, some, List, [], ◌∷◌, if◌then◌else◌}
use domux.Prelude.Result.{Result, ok, err}
use domux.Text.{Text, trim_suffix}
use domux.Core.Names.{dot, domain_within_managed_domain}
use domux.Ddns.Errors.{
  Error, wrap_zone_resolution_failed, wrap_zone_access_denied, wrap_target_outside_managed_domain,
  is_access_denied,
}

-- The parameters: EffectiveFQDN for a domain and a key authorisation, ResolveAuthZone, and a call of the
-- provider, Present or CleanUp, on its state
pub record Dns01 (State : Type 0) : Type 0 where
  pub effective_fqdn : Text → Text → Text
  pub resolve_auth_zone : Text → Result Error Text
  pub present : Text → Text → Text → State → State × Option Error
  pub clean_up : Text → Text → Text → State → State × Option Error
  pub unicode_lower : ℕ → ℕ

module _ {State : Type 0} (p : Dns01 State) (managed_domain : Text) where
  unfoldable pub challenge_fqdn : Text → Text → Text
  challenge_fqdn domain key_auth = trim_suffix dot (p.effective_fqdn domain key_auth)

  -- resolveAuthZone, which is preflight
  unfoldable pub resolve_challenge_zone : Text → Text → Result Error Text
  unfolding challenge_fqdn
  resolve_challenge_zone domain key_auth =
      let fqdn = challenge_fqdn domain key_auth in
      if domain_within_managed_domain managed_domain fqdn
      then elim (p.resolve_auth_zone fqdn) [
        | err e ↦ err (wrap_zone_resolution_failed fqdn e)
        | ok zone ↦ ok zone
      ]
      else err (wrap_target_outside_managed_domain managed_domain fqdn)

  -- the error of a call, which names the zone where access is denied
  unfoldable pub explained : Text → Option Error → Option Error
  explained zone none = none
  explained zone (some e) =
      if is_access_denied p.unicode_lower e then some (wrap_zone_access_denied zone e) else some e

  -- Present
  unfoldable pub present : Text → Text → Text → State → State × Option Error
  unfolding resolve_challenge_zone explained
  present domain token key_auth s = elim (resolve_challenge_zone domain key_auth) [
    | err e ↦ (s, some e)
    | ok zone ↦ let (s', failed) = p.present domain token key_auth s in (s', explained zone failed)
  ]

  -- CleanUp
  unfoldable pub clean_up : Text → Text → Text → State → State × Option Error
  unfolding resolve_challenge_zone explained
  clean_up domain token key_auth s = elim (resolve_challenge_zone domain key_auth) [
    | err e ↦ (s, some e)
    | ok zone ↦ let (s', failed) = p.clean_up domain token key_auth s in (s', explained zone failed)
  ]
