-- ===== src/Certs/Challenge/Guarded.antt =====
-- What a challenge may touch.
use domux.Prelude.{
  ◌≡◌, refl, Bool-cases, true, false, Option, none, some, arith, inl, inr, if◌then◌else◌,
}
use domux.Prelude.Result.{ok, err, Result-cases}
use domux.Text.{Text, trim_suffix}
use domux.Core.Names.{dot, domain_within_managed_domain}
use domux.Ddns.Errors.{
  Error, wrap_zone_resolution_failed, wrap_zone_access_denied, wrap_target_outside_managed_domain,
  is_access_denied,
}
use domux.Certs.Challenge.{
  Dns01, challenge_fqdn, resolve_challenge_zone, explained, present, clean_up,
}

module _ {State : Type 0} (p : Dns01 State) (managed_domain : Text) where
  -- What comes of a call of the provider for a name, from a state.
  pub data IsGuarded (fqdn : Text) (call : State → State × Option Error) (s : State)
      (result : State × Option Error) : Type 0 where
    outside :
        domain_within_managed_domain managed_domain fqdn ≡ false
        → result ≡ (s, some (wrap_target_outside_managed_domain managed_domain fqdn))
        → IsGuarded fqdn call s result
    unresolved :
        (e : Error)
        → domain_within_managed_domain managed_domain fqdn ≡ true
        → p.resolve_auth_zone fqdn ≡ err e
        → result ≡ (s, some (wrap_zone_resolution_failed fqdn e))
        → IsGuarded fqdn call s result
    called :
        (zone : Text)
        → domain_within_managed_domain managed_domain fqdn ≡ true
        → p.resolve_auth_zone fqdn ≡ ok zone
        → result.0 ≡ (call s).0
        → result.1 ≡ elim (call s).1 [
          | none ↦ none
          | some e ↦
              if is_access_denied p.unicode_lower e
              then some (wrap_zone_access_denied zone e)
              else some e
        ]
        → IsGuarded fqdn call s result

  module _ (domain token key_auth : Text) (s : State) where
    abbrev fqdn : Text
    fqdn = trim_suffix dot (p.effective_fqdn domain key_auth)

    explained_lem :
        (zone : Text) (e : Option Error)
        → explained p managed_domain zone e ≡ elim e [
          | none ↦ none
          | some e' ↦
              if is_access_denied p.unicode_lower e'
              then some (wrap_zone_access_denied zone e')
              else some e'
        ]
    unfolding explained
    explained_lem zone none = refl
    explained_lem zone (some e) = refl

    zone_outside :
        domain_within_managed_domain managed_domain fqdn ≡ false
        → resolve_challenge_zone p managed_domain domain key_auth
          ≡ err (wrap_target_outside_managed_domain managed_domain fqdn)
    unfolding resolve_challenge_zone challenge_fqdn
    zone_outside h = ground (arith, h)

    zone_unresolved :
        (e : Error)
        → domain_within_managed_domain managed_domain fqdn ≡ true
        → p.resolve_auth_zone fqdn ≡ err e
        → resolve_challenge_zone p managed_domain domain key_auth
          ≡ err (wrap_zone_resolution_failed fqdn e)
    unfolding resolve_challenge_zone challenge_fqdn
    zone_unresolved e h k = ground (arith, h, k)

    zone_resolved :
        (z : Text)
        → domain_within_managed_domain managed_domain fqdn ≡ true
        → p.resolve_auth_zone fqdn ≡ ok z
        → resolve_challenge_zone p managed_domain domain key_auth ≡ ok z
    unfolding resolve_challenge_zone challenge_fqdn
    zone_resolved z h k = ground (arith, h, k)

    -- Present and CleanUp work on the effective name of the challenge without its final dot. Where that name
    -- is outside the managed domain, or its authoritative zone cannot be resolved, both fail with an
    -- error that says so and change nothing; otherwise each leaves the state that the provider's call
    -- leaves and returns its error, which names the zone where access is denied.
    pub present-IsGuarded :
        IsGuarded
          (trim_suffix dot (p.effective_fqdn domain key_auth))
          (p.present domain token key_auth)
          s
          (present p managed_domain domain token key_auth s)
        × IsGuarded
            (trim_suffix dot (p.effective_fqdn domain key_auth))
            (p.clean_up domain token key_auth)
            s
            (clean_up p managed_domain domain token key_auth s)
    unfolding present clean_up
    present-IsGuarded = elim (Bool-cases (domain_within_managed_domain managed_domain fqdn)) [
      | inr away ↦
          let stopped = zone_outside away in
          (outside away (ground (arith, stopped)), outside away (ground (arith, stopped)))
      | inl within ↦ elim (Result-cases (p.resolve_auth_zone fqdn)) [
        | inr (e, missing) ↦
            let stopped = zone_unresolved e within missing in
            (
              unresolved e within missing (ground (arith, stopped)),
              unresolved e within missing (ground (arith, stopped)),
            )
        | inl (z, found) ↦
            let passed = zone_resolved z within found in
            (
              called z within found (ground (arith, passed))
                  (rw (passed, present) (explained_lem z (p.present domain token key_auth s).1)),
              called z within found (ground (arith, passed))
                  (rw (passed, clean_up) (explained_lem z (p.clean_up domain token key_auth s).1)),
            )
      ]
    ]
