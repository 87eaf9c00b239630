-- ===== src/Core/Zone/Loop.antt =====
-- The loop of CertificatePlans: what it accepts and what it returns.
use domux.Prelude.{
  ◌≡◌, ◌≢◌, refl, ap, true, false, none, List, [], ◌∷◌, arith, map, All, Option-cases, inl, inr,
  ◌∙◌,
}
use domux.Prelude.Result.{Result, ok, Result-cases}
use domux.Text.{Text, trim_space}
use domux.Text.Equality.{eq_iff}
use domux.Core.Types.{CertificatePlan, CertificateBundlePolicy}
use domux.Core.Names.{elem, Distinct, domain_within_managed_domain, qualified_bundle_name}
use domux.Core.Zone.{ZoneError, PlanDefaults, plan_of, plan_round, plan_loop, first_outside}

abbrev pub AllWithin : Text → List Text → Type 0
AllWithin zone_domain = All (λ d. domain_within_managed_domain zone_domain d ≡ true)

first_outside-none : (z : Text) (ds : List Text) → first_outside z ds ≡ none → AllWithin z ds
unfolding first_outside
first_outside-none z [] h = tt
first_outside-none z (d ∷ ds) h = ground (arith, first_outside-none z ds)

first_outside_all : (z : Text) (ds : List Text) → AllWithin z ds → first_outside z ds ≡ none
unfolding first_outside
first_outside_all z [] h = refl
first_outside_all z (d ∷ ds) h = ground (arith, first_outside_all z ds h.1)

abbrev Fresh : List Text → List Text → Type 0
Fresh seen = All (λ n. elem n seen ≡ false)

Fresh-cons :
    (n : Text) (seen ns : List Text) → Fresh seen ns → elem n ns ≡ false → Fresh (n ∷ seen) ns
unfolding elem
Fresh-cons n seen [] f h = tt
Fresh-cons n seen (m ∷ ns) f h = ground (arith, eq_iff n m, eq_iff m n, Fresh-cons n seen ns f.1)

Fresh-tail :
    (n : Text) (seen ns : List Text) → Fresh (n ∷ seen) ns → Fresh seen ns × (elem n ns ≡ false)
unfolding elem
Fresh-tail n seen [] f = (tt, refl)
Fresh-tail n seen (m ∷ ns) f = ground (arith, eq_iff n m, eq_iff m n, Fresh-tail n seen ns f.1)

pub Fresh-nil : (ns : List Text) → Fresh [] ns
unfolding elem
Fresh-nil [] = tt
Fresh-nil (n ∷ ns) = (refl, Fresh-nil ns)

abbrev pub IsNamed : CertificateBundlePolicy → Type 0
IsNamed bundle = trim_space bundle.name ≢ []

abbrev pub IsWithin : Text → CertificatePlan → Type 0
IsWithin zone_domain plan = AllWithin zone_domain plan.domains

abbrev pub names : List CertificatePlan → List Text
names = map (λ p. p.name)

-- What the loop asks of the bundles.
pub record Accepts (c : PlanDefaults) (seen : List Text) (bundles : List CertificateBundlePolicy)
    : Type 0 where
  pub named : All IsNamed bundles
  pub fresh : Fresh seen (names (map (plan_of c) bundles))
  pub distinct : Distinct (names (map (plan_of c) bundles))
  pub within : All (IsWithin c.zone_domain) (map (plan_of c) bundles)

module _ (c : PlanDefaults) where
  unnamed : (b : CertificateBundlePolicy) → trim_space b.name ≡ [] → (plan_of c b).name ≡ c.zone
  unfolding plan_of qualified_bundle_name
  unnamed b h = ground (arith, eq_iff (trim_space b.name) [])

  -- A round that succeeds has passed its three checks.
  round_sound :
      (seen : List Text) (b : CertificateBundlePolicy)
      (rest : Result ZoneError (List CertificatePlan)) (ps : List CertificatePlan)
      → plan_round c seen b rest ≡ ok ps
      → (qs : List CertificatePlan) × (rest ≡ ok qs)
        × (ps ≡ plan_of c b ∷ qs)
        × IsNamed b
        × (elem (plan_of c b).name seen ≡ false)
        × IsWithin c.zone_domain (plan_of c b)
  unfolding plan_round
  round_sound seen b rest ps h = elim (Result-cases rest) [
    | inr (e, failed) ↦ ground arith
    | inl (qs, passed) ↦ elim (Option-cases (first_outside c.zone_domain (plan_of c b).domains)) [
      | inr (d, outside) ↦ ground arith
      | inl inside ↦ (
        qs,
        passed,
        ground arith,
        λ blank. ground (
          arith,
          unnamed b blank,
          eq_iff (trim_space b.name) [],
          eq_iff (plan_of c b).name c.zone,
        ),
        ground arith,
        first_outside-none c.zone_domain (plan_of c b).domains inside,
      )
    ]
  ]

  pub loop_sound :
      (seen : List Text) (bundles : List CertificateBundlePolicy) (ps : List CertificatePlan)
      → plan_loop c seen bundles ≡ ok ps
      → (ps ≡ map (plan_of c) bundles) × Accepts c seen bundles
  unfolding plan_loop plan_of
  loop_sound seen [] ps h =
      (ground arith, record { named = tt; fresh = tt; distinct = tt; within = tt })
  loop_sound seen (b ∷ bs) ps h =
      let (qs, rest, made, named, fresh, within) = round_sound seen b _ ps h in
      let (same, ih) = loop_sound (qualified_bundle_name c.zone b.name ∷ seen) bs qs rest in
      let (fresh_rest, new) = Fresh-tail (qualified_bundle_name c.zone b.name) seen _ ih.fresh in
      (
        made ∙ ap (◌∷◌ (plan_of c b)) same,
        record {
          named = (named, ih.named);
          fresh = (fresh, fresh_rest);
          distinct = (new, ih.distinct);
          within = (within, ih.within);
        },
      )

  round_complete :
      (seen : List Text) (b : CertificateBundlePolicy) (qs : List CertificatePlan)
      → IsNamed b
      → elem (plan_of c b).name seen ≡ false
      → IsWithin c.zone_domain (plan_of c b)
      → plan_round c seen b (ok qs) ≡ ok (plan_of c b ∷ qs)
  unfolding plan_round
  round_complete seen b qs named fresh within = ground (
    arith,
    eq_iff (trim_space b.name) [],
    first_outside_all c.zone_domain (plan_of c b).domains within,
  )

  pub loop_complete :
      (seen : List Text) (bundles : List CertificateBundlePolicy)
      → Accepts c seen bundles
      → plan_loop c seen bundles ≡ ok (map (plan_of c) bundles)
  unfolding plan_loop plan_of
  loop_complete seen [] a = refl
  loop_complete seen (b ∷ bs) a =
      let name = qualified_bundle_name c.zone b.name in
      let rest = loop_complete (name ∷ seen) bs (record {
        named = a.named.1;
        fresh = Fresh-cons name seen _ a.fresh.1 a.distinct.0;
        distinct = a.distinct.1;
        within = a.within.1;
      }) in
      ap (plan_round c seen b) rest ∙ round_complete seen b _ a.named.0 a.fresh.0 a.within.0
