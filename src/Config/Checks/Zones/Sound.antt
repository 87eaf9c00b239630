-- ===== src/Config/Checks/Zones/Sound.antt =====
-- The loop over the zones where it reports nothing.
use domux.Prelude.{
  ◌+◌, ◌≡◌, refl, false, none, List, [], ◌∷◌, ◌++◌, arith, inl, inr, if◌then◌else◌, is_some,
  Bool-cases, Option-cases, All,
}
use domux.Prelude.Result.{Result-cases}
use domux.Text.{Text}
use domux.Text.Equality.{eq_iff}
use domux.Mapping.{Mapping, get, get-put}
use domux.Core.Types.{ManagedZone, CertificatePlan, DdnsProviderConfig}
use domux.Core.Names.{elem}
use domux.Core.Zone.{validate, certificate_plans}
use domux.Providers.Registry.{Registry}
use domux.Config.Checks.{ConfigError, scan}
use domux.Config.Checks.Scans.{Fresh, append-nil_left, append-nil_right}
use domux.Config.Checks.Coherent.{IsPlaced, Known, domains_of, zone_at, count_defaults}
use domux.Config.Checks.Whole.{defaulted}
use domux.Config.Checks.Zones.{
  Seen, see, nothing_seen, check_reference, check_references, check_certificate_provider,
  check_plan_targets, check_plans, check_certificate, check_zone, check_zones,
}

see-get :
    (k : Text) (s : Seen) (z : ManagedZone)
    → is_some (get k s.by_domain) ≡ elem k s.domains
    → is_some (get k (see z s).by_domain) ≡ elem k (see z s).domains
unfolding see elem
see-get k s z h = ground (arith, h, get-put z.domain k z s.by_domain, eq_iff z.domain k)

module _ {ParseError Challenge : Type 0} (registry : Registry Challenge)
    (refs : Mapping DdnsProviderConfig) (providers known : List Text)
    (same : (k : Text) → is_some (get k refs) ≡ elem k providers) where
  check_references-Known :
      (z : ManagedZone) (more : List Text)
      → check_references {ParseError = ParseError} registry refs z more ≡ []
      → Known providers more
  unfolding check_references check_reference
  check_references-Known z [] h = tt
  check_references-Known z (ref ∷ more) h = (
    ground (
      arith,
      append-nil_left (check_reference registry refs z ref) _ h,
      same ref,
      Option-cases (get ref refs),
    ),
    check_references-Known z more (append-nil_right (check_reference registry refs z ref) _ h),
  )

  check_plan_targets-Known :
      (z : ManagedZone) (bundle : Text) (ts : List Text)
      → check_plan_targets {ParseError = ParseError} registry refs z known bundle ts ≡ []
      → Known known ts
  unfolding check_plan_targets
  check_plan_targets-Known z bundle [] h = tt
  check_plan_targets-Known z bundle (t ∷ ts) h = elim (Bool-cases (elem t known)) [
    | inl there ↦ (there, check_plan_targets-Known z bundle ts (rw there at h))
    | inr not_there ↦ absurd (ground (arith, h, not_there))
  ]

  check_plans-Known :
      (z : ManagedZone) (plans : List CertificatePlan)
      → check_plans {ParseError = ParseError} registry refs z known plans ≡ []
      → All (λ (p : CertificatePlan). Known known p.deploy_targets) plans
  unfolding check_plans
  check_plans-Known z [] h = tt
  check_plans-Known z (plan ∷ plans) h = (
    check_plan_targets-Known z plan.name plan.deploy_targets (
        append-nil_left (check_plan_targets registry refs z known plan.name plan.deploy_targets) _
          h),
    check_plans-Known z plans (
        append-nil_right (check_plan_targets registry refs z known plan.name plan.deploy_targets) _
          h),
  )

  check_certificate-IsPlaced :
      (z : ManagedZone)
      → check_references {ParseError = ParseError} registry refs z z.ddns.provider_refs ≡ []
      → check_certificate {ParseError = ParseError} registry refs known z ≡ []
      → IsPlaced providers known z
  unfolding check_certificate check_certificate_provider certificate_plans
  check_certificate-IsPlaced z r h = elim (Bool-cases z.certificate.enabled) [
    | inr off ↦ record {
      references = check_references-Known z z.ddns.provider_refs r;
      certificate = inl off;
      plans = [];
      planned = ground (arith, off);
      delivered = tt;
    }
    | inl on ↦ elim (Result-cases (certificate_plans z)) [
      | inr (e, failed) ↦ absurd (ground (arith, h, on, failed))
      | inl (plans, planned) ↦
          let both : check_certificate_provider {ParseError = ParseError} registry refs z
                ++ check_plans registry refs z known plans
              ≡ [] =
            ground (arith, h, on, planned) in
          record {
            references = check_references-Known z z.ddns.provider_refs r;
            certificate = inr (
                ground (
                  arith,
                  append-nil_left (check_certificate_provider registry refs z) _ both,
                  same z.certificate.dns_provider,
                  Option-cases (get z.certificate.dns_provider refs),
                ));
            plans = plans;
            planned = planned;
            delivered =
                check_plans-Known z plans
                  (append-nil_right (check_certificate_provider registry refs z) _ both);
          }
    ]
  ]

  check_zone-accepted :
      (s : Seen) (z : ManagedZone)
      → (check_zone {ParseError = ParseError} registry refs known s z).0 ≡ []
      → ((validate z).1 ≡ none) × (elem (validate z).0.domain s.domains ≡ false)
  unfolding check_zone
  check_zone-accepted s z h =
      ground
        (arith, h, Option-cases (validate z).1, Bool-cases (elem (validate z).0.domain s.domains))

  check_zone-nil :
      (s : Seen) (z : ManagedZone)
      → (check_zone {ParseError = ParseError} registry refs known s z).0 ≡ []
      → ((elem (validate z).0.domain s.domains ≡ false) × IsPlaced providers known (validate z).0)
        × ((check_zone {ParseError = ParseError} registry refs known s z).1 ≡ see (validate z).0 s)
  unfolding check_zone
  check_zone-nil s z h =
      let accepted = check_zone-accepted s z h in
      let z' = (validate z).0 in
      let first =
        check_references {ParseError = ParseError} registry refs z' z'.ddns.provider_refs in
      let both : first ++ check_certificate registry refs known z' ≡ [] =
        ground (arith, h, accepted) in
      (
        (
          accepted.1,
          check_certificate-IsPlaced z' (append-nil_left first _ both)
              (append-nil_right first _ both),
        ),
        ground (arith, accepted),
      )

  abbrev scanned : Seen → List ManagedZone → List (ConfigError ParseError) × Seen
  scanned s zones = scan (check_zone registry refs known) s zones

  -- what one round that reports nothing leaves for the rest
  scanned-cons :
      (s : Seen) (z : ManagedZone) (zones : List ManagedZone)
      → (scanned s (z ∷ zones)).0 ≡ []
      → ((check_zone {ParseError = ParseError} registry refs known s z).0 ≡ [])
        × ((scanned (see (validate z).0 s) zones).0 ≡ [])
  unfolding scan
  scanned-cons s z zones h =
      let now = append-nil_left (check_zone registry refs known s z).0 _ h in
      let later = append-nil_right (check_zone registry refs known s z).0 _ h in
      (now, rw (check_zone-nil s z now).1 at later)

  scanned-Fresh :
      (s : Seen) (zones : List ManagedZone)
      → (scanned s zones).0 ≡ []
      → Fresh s.domains (domains_of (defaulted zones))
        × All (IsPlaced providers known) (defaulted zones)
  unfolding defaulted see
  scanned-Fresh s [] h = (tt, tt)
  scanned-Fresh s (z ∷ zones) h =
      let parts = scanned-cons s z zones h in
      let here = check_zone-nil s z parts.0 in
      let rest = scanned-Fresh (see (validate z).0 s) zones parts.1 in
      ((here.0.0, rest.0), (here.0.1, rest.1))

  scanned_end :
      (s : Seen) (z : ManagedZone) (zones : List ManagedZone)
      → (scanned s (z ∷ zones)).0 ≡ []
      → (scanned s (z ∷ zones)).1 ≡ (scanned (see (validate z).0 s) zones).1
  unfolding scan
  scanned_end s z zones h = rw (check_zone-nil s z (scanned-cons s z zones h).0).1 refl

  scanned-defaults :
      (s : Seen) (zones : List ManagedZone)
      → (scanned s zones).0 ≡ []
      → (scanned s zones).1.defaults ≡ s.defaults + count_defaults (defaulted zones)
  unfolding defaulted see count_defaults scan
  scanned-defaults s [] h = ground arith
  scanned-defaults s (z ∷ zones) h = ground (
    arith,
    scanned_end s z zones h,
    scanned-defaults (see (validate z).0 s) zones (scanned-cons s z zones h).1,
  )

  scanned-get :
      (k : Text) (s : Seen) (zones : List ManagedZone)
      → is_some (get k s.by_domain) ≡ elem k s.domains
      → (scanned s zones).0 ≡ []
      → get k (scanned s zones).1.by_domain
        ≡ (if elem k s.domains then get k s.by_domain else zone_at k (defaulted zones))
  unfolding defaulted see zone_at scan elem
  scanned-get k s [] start h =
      ground (arith, start, Option-cases (get k s.by_domain), Bool-cases (elem k s.domains))
  scanned-get k s (z ∷ zones) start h = ground (
    arith,
    scanned_end s z zones h,
    (check_zone-nil s z (scanned-cons s z zones h).0).0.0,
    scanned-get k (see (validate z).0 s) zones (see-get k s (validate z).0 start)
        (scanned-cons s z zones h).1,
    get-put (validate z).0.domain k (validate z).0 s.by_domain,
    eq_iff (validate z).0.domain k,
  )

  scanned-get-start :
      (k : Text) (zones : List ManagedZone)
      → (scanned nothing_seen zones).0 ≡ []
      → get k (scanned nothing_seen zones).1.by_domain ≡ zone_at k (defaulted zones)
  unfolding elem get
  scanned-get-start k zones h = scanned-get k nothing_seen zones refl h

  -- What the loop over the zones leaves where it reports nothing: distinct domains, zones whose
  -- references are known, the number of default zones and the zone of each domain.
  pub check_zones-nil :
      (zones : List ManagedZone)
      → (check_zones {ParseError = ParseError} registry refs known zones).0 ≡ []
      → (Fresh [] (domains_of (defaulted zones)) × All (IsPlaced providers known) (defaulted zones))
        × (((check_zones {ParseError = ParseError} registry refs known zones).1.defaults
              ≡ count_defaults (defaulted zones))
            × ((k : Text)
                → get k
                    (check_zones {ParseError = ParseError} registry refs known zones).1.by_domain
                  ≡ zone_at k (defaulted zones)))
  unfolding check_zones
  check_zones-nil zones h = (
    scanned-Fresh nothing_seen zones h,
    (ground (arith, scanned-defaults nothing_seen zones h), λ k. scanned-get-start k zones h),
  )
