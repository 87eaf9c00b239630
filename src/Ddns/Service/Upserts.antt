-- ===== src/Ddns/Service/Upserts.antt =====
-- What SyncZone asks of the providers.
use domux.Prelude.{
  ◌≡◌, ◌≢◌, refl, sym, ap, ◌∙◌, Bool, true, false, not, ◌&&◌, none, some, List, [], ◌∷◌, ◌++◌,
  arith, Bool-cases, Option-cases, inl, inr, ◌⊎◌, All, All-append, append_assoc, append-nil,
  is_empty, subst,
}
use domux.Prelude.Result.{ok, Result-cases}
use domux.Text.{Text, ◌==◌}
use domux.Text.Equality.{eq_iff}
use domux.Mapping.{get}
use domux.Core.Types.{ManagedZone}
use domux.Core.Names.{domain_within_managed_domain, star_dot}
use domux.Ddns.Errors.{Error}
use domux.Ddns.Service.{
  Gathered, World, Service, Upsert, Snapshot, gather, sync_family, sync_provider, sync_providers,
  detection_errors, detected, sync_zone, type_a, type_aaaa, is_current,
}
use domux.Ddns.Service.Record.{due, sync_record-due}

-- A call that may be made for a zone: for its domain or, with wildcards on, for all names below it, of
-- an enabled family, with an address and the zone's TTL, in the authoritative zone of the name, which
-- lies within the zone's domain.
pub record IsFor {S Updater : Type 0} (s : Service S Updater) (zone : ManagedZone) (snap : Snapshot)
    (u : Upsert) : Type 0 where
  pub name :
      (u.record_.name ≡ zone.domain)
      ⊎ ((zone.ddns.wildcard ≡ true) × (u.record_.name ≡ star_dot ++ zone.domain))
  pub address :
      ((zone.ddns.ipv4 ≡ true) × (u.record_.type ≡ type_a) × (u.record_.value ≡ snap.ipv4))
      ⊎ ((zone.ddns.ipv6 ≡ true) × (u.record_.type ≡ type_aaaa) × (u.record_.value ≡ snap.ipv6))
  pub filled : u.record_.value ≢ []
  pub ttl : u.record_.ttl ≡ zone.ddns.ttl
  pub resolved : s.resolve u.record_.name ≡ ok u.record_.zone
  pub within : domain_within_managed_domain zone.domain u.record_.name ≡ true

module _ {S Updater : Type 0} (s : Service S Updater) (zone : ManagedZone) (snap : Snapshot) where
  -- The calls from one world to the next are all for the zone.
  abbrev pub Extends : World S → World S → Type 0
  Extends w w' =
      (calls : List Upsert) × (w'.upserts ≡ w.upserts ++ calls) × All (IsFor s zone snap) calls

  Extends-refl : (w : World S) → Extends w w
  Extends-refl w = ([], sym (append-nil w.upserts), tt)

  Extends-trans : (a b c : World S) → Extends a b → Extends b c → Extends a c
  Extends-trans a b c (xs, p, hx) (ys, q, hy) = (
    xs ++ ys,
    q ∙ ap (λ (u : List Upsert). u ++ ys) p ∙ append_assoc a.upserts xs ys,
    All-append (IsFor s zone snap) xs ys hx hy,
  )

  module _ (ref : Text) (updater : Updater) (host record_type value : Text)
      (name : (host ≡ zone.domain)
        ⊎ ((zone.ddns.wildcard ≡ true) × (host ≡ star_dot ++ zone.domain)))
      (address : ((zone.ddns.ipv4 ≡ true) × (record_type ≡ type_a) × (value ≡ snap.ipv4))
        ⊎ ((zone.ddns.ipv6 ≡ true) × (record_type ≡ type_aaaa) × (value ≡ snap.ipv6)))
      (filled : value ≢ []) where
    due-IsFor :
        (w : World S) → All (IsFor s zone snap) (due s ref updater zone host record_type value w)
    unfolding due
    due-IsFor w =
        elim (Bool-cases (
          domain_within_managed_domain zone.domain host
          && not (is_current s zone ref host record_type value w))) [
            | inr idle ↦ rw idle tt
            | inl busy ↦ elim (Result-cases (s.resolve host)) [
              | inr (e, missing) ↦ rw (busy, missing) tt
              | inl (z, found) ↦
                  rw (busy, found)
                    (
                      record {
                        name = name;
                        address = address;
                        filled = filled;
                        ttl = refl;
                        resolved = found;
                        within = ground arith;
                      },
                      tt,
                    )
            ]
          ]

    gather-Extends :
        (g : Gathered s) → Extends g.0 (gather s ref updater zone host record_type value g).0
    unfolding gather
    gather-Extends (w, states, errs) = (
      due s ref updater zone host record_type value w,
      sync_record-due s ref updater zone host record_type value w,
      due-IsFor w,
    )

  module _ (ref : Text) (updater : Updater) (enabled : Bool) (record_type value : Text)
      (address : enabled ≡ true
        → ((zone.ddns.ipv4 ≡ true) × (record_type ≡ type_a) × (value ≡ snap.ipv4))
          ⊎ ((zone.ddns.ipv6 ≡ true) × (record_type ≡ type_aaaa) × (value ≡ snap.ipv6))) where
    family_narrow :
        enabled && not (value == []) ≡ true
        → zone.ddns.wildcard ≡ false
        → (g : Gathered s)
        → sync_family s ref updater zone enabled record_type value g
          ≡ gather s ref updater zone zone.domain record_type value g
    unfolding sync_family
    family_narrow busy narrow g = ground arith

    family_wild :
        enabled && not (value == []) ≡ true
        → zone.ddns.wildcard ≡ true
        → (g : Gathered s)
        → sync_family s ref updater zone enabled record_type value g
          ≡ gather s ref updater zone
              (star_dot ++ zone.domain)
              record_type
              value
              (gather s ref updater zone zone.domain record_type value g)
    unfolding sync_family
    family_wild busy wild g = ground arith

    sync_family-Extends :
        (g : Gathered s)
        → Extends g.0 (sync_family s ref updater zone enabled record_type value g).0
    unfolding sync_family
    sync_family-Extends g = elim (Bool-cases (enabled && not (value == []))) [
      | inr idle ↦ rw idle (Extends-refl g.0)
      | inl busy ↦
          let on : enabled ≡ true = ground arith in
          let filled : value ≢ [] = λ e. ground (arith, eq_iff value []) in
          let first =
            gather-Extends ref updater zone.domain record_type value (inl refl) (address on) filled
              g in
          let g' = gather s ref updater zone zone.domain record_type value g in
          let g'' = gather s ref updater zone (star_dot ++ zone.domain) record_type value g' in
          elim (Bool-cases zone.ddns.wildcard) [
            | inr narrow ↦
                subst (λ (x : Gathered s). Extends g.0 x.0) (sym (family_narrow busy narrow g))
                  first
            | inl wild ↦
                subst (λ (x : Gathered s). Extends g.0 x.0) (sym (family_wild busy wild g))
                  (Extends-trans g.0 g'.0 g''.0 first (
                    gather-Extends ref updater (star_dot ++ zone.domain) record_type value
                      (inr (wild, refl)) (address on) filled g'))
          ]
    ]

  provider_missing :
      (ref : Text) (g : Gathered s)
      → get ref s.providers ≡ none
      → (sync_provider s zone snap ref g).0 ≡ g.0
  unfolding sync_provider
  provider_missing ref g missing = rw (missing, sync_provider)

  provider_found :
      (ref : Text) (updater : Updater) (g : Gathered s)
      → get ref s.providers ≡ some updater
      → sync_provider s zone snap ref g
        ≡ sync_family s ref updater zone zone.ddns.ipv6 type_aaaa snap.ipv6
            (sync_family s ref updater zone zone.ddns.ipv4 type_a snap.ipv4 g)
  unfolding sync_provider
  provider_found ref updater g found = rw (found, sync_provider)

  sync_provider-Extends :
      (ref : Text) (g : Gathered s) → Extends g.0 (sync_provider s zone snap ref g).0
  sync_provider-Extends ref g = elim (Option-cases (get ref s.providers)) [
    | inl missing ↦ subst (Extends g.0) (sym (provider_missing ref g missing)) (Extends-refl g.0)
    | inr (updater, found) ↦
        let first =
          sync_family-Extends ref updater zone.ddns.ipv4 type_a snap.ipv4
            (λ on. inl (on, refl, refl)) g in
        let g' = sync_family s ref updater zone zone.ddns.ipv4 type_a snap.ipv4 g in
        let g'' = sync_family s ref updater zone zone.ddns.ipv6 type_aaaa snap.ipv6 g' in
        let second =
          sync_family-Extends ref updater zone.ddns.ipv6 type_aaaa snap.ipv6
            (λ on. inr (on, refl, refl)) g' in
        subst (λ (x : Gathered s). Extends g.0 x.0) (sym (provider_found ref updater g found))
          (Extends-trans g.0 g'.0 g''.0 first second)
  ]

  sync_providers-Extends :
      (refs : List Text) (g : Gathered s) → Extends g.0 (sync_providers s zone snap refs g).0
  unfolding sync_providers
  sync_providers-Extends [] g = Extends-refl g.0
  sync_providers-Extends (ref ∷ refs) g =
      let g' = sync_provider s zone snap ref g in
      Extends-trans g.0 g'.0 (sync_providers s zone snap refs g').0 (sync_provider-Extends ref g)
        (sync_providers-Extends refs g')

  detected-Extends : (errs : List Error) (w : World S) → Extends w (detected s zone snap errs w).0
  unfolding detected
  detected-Extends errs w =
      elim (Bool-cases (not (is_empty errs) && snap.ipv4 == [] && snap.ipv6 == [])) [
        | inl blind ↦ rw blind (Extends-refl w)
        | inr seen ↦ rw seen (
            sync_providers-Extends zone.ddns.provider_refs
              (w, [], detection_errors s zone snap errs))
      ]

zone_detected :
    {S Updater : Type 0} (s : Service S Updater) (zone : ManagedZone)
    (detect : Bool → Bool → Snapshot × List Error) (w : World S)
    → zone.ddns.enabled ≡ true
    → s.detector ≡ some detect
    → sync_zone s zone w
      ≡ detected s zone
          (detect zone.ddns.ipv4 zone.ddns.ipv6).0
          (detect zone.ddns.ipv4 zone.ddns.ipv6).1
          w
unfolding sync_zone
zone_detected s zone detect w on has = ground arith

-- Every call of Upsert that SyncZone makes is for the zone: for its domain or its wildcard name, in the
-- authoritative zone of that name, with a detected address of an enabled family and the zone's TTL,
-- and earlier calls stay in the record of calls.
pub sync_zone-Extends :
    {S Updater : Type 0} (s : Service S Updater) (zone : ManagedZone)
    (detect : Bool → Bool → Snapshot × List Error) (w : World S)
    → zone.ddns.enabled ≡ true
    → s.detector ≡ some detect
    → Extends s zone (detect zone.ddns.ipv4 zone.ddns.ipv6).0 w (sync_zone s zone w).0
sync_zone-Extends s zone detect w on has =
    let (snap, errs) = detect zone.ddns.ipv4 zone.ddns.ipv6 in
    subst (λ (x : Gathered s). Extends s zone snap w x.0)
      (sym (zone_detected s zone detect w on has)) (detected-Extends s zone snap errs w)
