-- ===== src/Core/Zone/Plans.antt =====
-- What CertificatePlans accepts and what it returns.
use domux.Prelude.{
  ◌≡◌, ◌↔◌, refl, ap, ap₂, subst, true, false, List, [], ◌∷◌, arith, map, All, Bool-cases, ◌∙◌, sym,
  is_empty,
}
use domux.Prelude.Result.{ok}
use domux.Core.Types.{ManagedZone, CertificatePlan, CertificateBundlePolicy}
use domux.Core.Names.{Distinct, compact_names}
use domux.Core.Zone.{
  plan_of, plan_loop, plan_defaults, certificate_plans, or_default, domains_for_managed_zone,
}
use domux.Core.Zone.Loop.{Accepts, Fresh-nil, IsNamed, IsWithin, names, loop_sound, loop_complete}
use domux.Core.Zone.Described.{
  IsPlanOf, ArePlansOf, zone_domains, FilledNames, FilledNames-or_default, FilledNames-unique,
  FilledTime-filled_time, FilledTime-unique, Qualified-qualified_bundle_name, Qualified-unique,
}

module _ (z : ManagedZone) where
  domains_for_managed_zone_lem : domains_for_managed_zone z ≡ zone_domains z
  unfolding domains_for_managed_zone
  domains_for_managed_zone_lem = ground (arith, Bool-cases z.wildcard)

  abbrev planned : CertificateBundlePolicy → CertificatePlan
  planned = plan_of (plan_defaults z)

  planned-IsPlanOf : (b : CertificateBundlePolicy) → IsNamed b → IsPlanOf z b (planned b)
  unfolding plan_of plan_defaults
  planned-IsPlanOf b named = record {
    name = Qualified-qualified_bundle_name z.name b.name named;
    domains =
        subst
          (λ ds.
            FilledNames (compact_names b.domains) ds
              (or_default (compact_names b.domains) (domains_for_managed_zone z)))
          domains_for_managed_zone_lem
          (FilledNames-or_default (compact_names b.domains) (domains_for_managed_zone z));
    renew_before = FilledTime-filled_time b.renew_before z.certificate.renew_before;
    deploy_targets = FilledNames-or_default _ _;
  }

  IsPlanOf-unique :
      (b : CertificateBundlePolicy) (p : CertificatePlan)
      → IsNamed b
      → IsPlanOf z b p
      → p ≡ planned b
  unfolding plan_of plan_defaults
  IsPlanOf-unique b p named h = ground (
    arith,
    Qualified-unique z.name b.name p.name named h.name,
    FilledNames-unique _ _ _ h.domains,
    domains_for_managed_zone_lem,
    FilledTime-unique _ _ _ h.renew_before,
    FilledNames-unique _ _ _ h.deploy_targets,
  )

  map-ArePlansOf :
      (bs : List CertificateBundlePolicy) → All IsNamed bs → ArePlansOf z bs (map planned bs)
  map-ArePlansOf [] named = tt
  map-ArePlansOf (b ∷ bs) named = (planned-IsPlanOf b named.0, map-ArePlansOf bs named.1)

  ArePlansOf-unique :
      (bs : List CertificateBundlePolicy) (ps : List CertificatePlan)
      → All IsNamed bs
      → ArePlansOf z bs ps
      → ps ≡ map planned bs
  ArePlansOf-unique [] [] named h = refl
  ArePlansOf-unique [] (p ∷ ps) named h = absurd h
  ArePlansOf-unique (b ∷ bs) [] named h = absurd h
  ArePlansOf-unique (b ∷ bs) (p ∷ ps) named h =
      ap₂ ◌∷◌ (IsPlanOf-unique b p named.0 h.0) (ArePlansOf-unique bs ps named.1 h.1)

  explicit_plans :
      z.certificate.enabled ≡ true
      → is_empty z.certificate.bundles ≡ false
      → certificate_plans z ≡ plan_loop (plan_defaults z) [] z.certificate.bundles
  unfolding certificate_plans
  explicit_plans on explicit = ground arith

  -- The plans of the bundles, in order, and what they must satisfy.
  pub record ArePlans (ps : List CertificatePlan) : Type 0 where
    pub plans : ArePlansOf z z.certificate.bundles ps
    pub named : All IsNamed z.certificate.bundles
    pub distinct : Distinct (names ps)
    pub within : All (IsWithin z.domain) ps

  Accepts-ArePlans :
      (ps : List CertificatePlan)
      → ps ≡ map planned z.certificate.bundles
      → Accepts (plan_defaults z) [] z.certificate.bundles
      → ArePlans ps
  unfolding plan_defaults
  Accepts-ArePlans ps same a = subst ArePlans (sym same) (record {
    plans = map-ArePlansOf z.certificate.bundles a.named;
    named = a.named;
    distinct = a.distinct;
    within = a.within;
  })

  ArePlans-Accepts :
      (ps : List CertificatePlan)
      → ArePlans ps
      → (ps ≡ map planned z.certificate.bundles)
        × Accepts (plan_defaults z) [] z.certificate.bundles
  unfolding plan_defaults
  ArePlans-Accepts ps a =
      let same = ArePlansOf-unique z.certificate.bundles ps a.named a.plans in
      (
        same,
        record {
          named = a.named;
          fresh = Fresh-nil _;
          distinct = subst (λ qs. Distinct (names qs)) same a.distinct;
          within = subst (All (IsWithin z.domain)) same a.within;
        },
      )

  -- For an enabled certificate with explicit bundles, CertificatePlans returns exactly one plan for each
  -- bundle, in order, if every bundle is named, the names of the plans are distinct and their domains
  -- lie within the zone, and otherwise it fails. The plan of a bundle is named after the zone and, where
  -- its name is another, the bundle behind a colon; it has the domains of the bundle or else those of
  -- the zone, the bundle's renewal time or else the zone's or else twenty days, and the bundle's targets
  -- or else the zone's, each list as compactNames leaves it.
  pub certificate_plans_iff :
      (ps : List CertificatePlan)
      → z.certificate.enabled ≡ true
      → is_empty z.certificate.bundles ≡ false
      → (certificate_plans z ≡ ok ps) ↔ ArePlans ps
  certificate_plans_iff ps on explicit = rw (explicit_plans on explicit) (
    λ made.
        (let (same, a) = loop_sound (plan_defaults z) [] z.certificate.bundles ps made in
          Accepts-ArePlans ps same a),
    λ a.
        (let (same, accepted) = ArePlans-Accepts ps a in
          loop_complete (plan_defaults z) [] z.certificate.bundles accepted ∙ ap ok (sym same)),
  )
