-- ===== src/Core/Bundles/Current.antt =====
-- Which bundles are current, and with which targets.
use domux.Prelude.{
  subst, ◌≡◌, refl, sym, true, none, some, List, [], ◌∷◌, arith, inl, inr, ◌⊎◌, Bool-cases,
  Option-cases, All,
}
use domux.Prelude.Result.{ok, Result-cases}
use domux.Text.{Text}
use domux.Text.Equality.{eq_iff}
use domux.Mapping.{Mapping, get, put, get-put}
use domux.Core.Types.{ManagedZone, CertificatePlan, CertificateBundle}
use domux.Core.Zone.{certificate_plans}
use domux.Core.Bundles.{
  put_plans, put_zone, put_zones, certificate_plan_targets, apply_targets,
  apply_certificate_plan_targets, current_targets, current_certificate_bundles,
}

-- Some plan in the list has the name and the targets.
abbrev pub Plans : List CertificatePlan → Text → List Text → Type 0
Plans [] name targets = ⊥
Plans (p ∷ ps) name targets =
    ((p.name ≡ name) × (p.deploy_targets ≡ targets)) ⊎ Plans ps name targets

-- Some zone with an enabled certificate has such a plan.
abbrev pub Planned : List ManagedZone → Text → List Text → Type 0
Planned [] name targets = ⊥
Planned (z ∷ zones) name targets =
    ((z.certificate.enabled ≡ true)
      × ((ps : List CertificatePlan) × (certificate_plans z ≡ ok ps) × Plans ps name targets))
    ⊎ Planned zones name targets

get-put_plans :
    (ps : List CertificatePlan) (m : Mapping (List Text)) (name : Text) (t : List Text)
    → get name (put_plans ps m) ≡ some t
    → Plans ps name t ⊎ (get name m ≡ some t)
unfolding put_plans
get-put_plans [] m name t e = inr e
get-put_plans (p ∷ ps) m name t e =
    elim (get-put_plans ps (put p.name p.deploy_targets m) name t e) [
      | inl later ↦ inl (inr later)
      | inr here ↦ ground (arith, eq_iff p.name name, get-put p.name name p.deploy_targets m)
    ]

get-put_zone :
    (z : ManagedZone) (m : Mapping (List Text)) (name : Text) (t : List Text)
    → get name (put_zone z m) ≡ some t
    → ((z.certificate.enabled ≡ true)
        × ((ps : List CertificatePlan) × (certificate_plans z ≡ ok ps) × Plans ps name t))
      ⊎ (get name m ≡ some t)
unfolding put_zone
get-put_zone z m name t e = elim (Bool-cases z.certificate.enabled) [
  | inr off ↦ inr (ground (arith, off))
  | inl on ↦ elim (Result-cases (certificate_plans z)) [
    | inr (x, bad) ↦ inr (ground (arith, on))
    | inl (ps, good) ↦ elim (get-put_plans ps m name t (ground (arith, on))) [
      | inl planned ↦ inl (on, (ps, good, planned))
      | inr before ↦ inr before
    ]
  ]
]

get-put_zones :
    (zones : List ManagedZone) (m : Mapping (List Text)) (name : Text) (t : List Text)
    → get name (put_zones zones m) ≡ some t
    → Planned zones name t ⊎ (get name m ≡ some t)
unfolding put_zones
get-put_zones [] m name t e = inr e
get-put_zones (z ∷ zones) m name t e = elim (get-put_zones zones (put_zone z m) name t e) [
  | inl later ↦ inl (inr later)
  | inr here ↦ elim (get-put_zone z m name t here) [
    | inl planned ↦ inl (inl planned)
    | inr before ↦ inr before
  ]
]

certificate_plan_targets-Planned :
    (zones : List ManagedZone) (name : Text) (t : List Text)
    → get name (certificate_plan_targets zones) ≡ some t
    → Planned zones name t
unfolding certificate_plan_targets get
certificate_plan_targets-Planned zones name t e = elim (get-put_zones zones [] name t e) [
  | inl planned ↦ planned
  | inr none_before ↦ cc
]

module _ (zones : List ManagedZone) (m : Mapping (List Text))
    (planned : (name : Text) (t : List Text) → get name m ≡ some t → Planned zones name t) where
  current_targets-gone :
      (b : CertificateBundle) (bundles : List CertificateBundle)
      → get b.name m ≡ none
      → current_targets m (b ∷ bundles) ≡ current_targets m bundles
  unfolding current_targets
  current_targets-gone b bundles gone = ground (arith, gone)

  current_targets-found :
      (b : CertificateBundle) (bundles : List CertificateBundle) (t : List Text)
      → get b.name m ≡ some t
      → current_targets m (b ∷ bundles)
        ≡ record b { deploy_targets = t } ∷ current_targets m bundles
  unfolding current_targets
  current_targets-found b bundles t found = ground (arith, found)

  current_targets-Planned :
      (bundles : List CertificateBundle)
      → All (λ b. Planned zones b.name b.deploy_targets) (current_targets m bundles)
  unfolding current_targets
  current_targets-Planned [] = tt
  current_targets-Planned (b ∷ bundles) =
      let P =
        λ (bs : List CertificateBundle). All (λ c. Planned zones c.name c.deploy_targets) bs in
      let rest = current_targets-Planned bundles in
      elim (Option-cases (get b.name m)) [
        | inl gone ↦ subst P (sym (current_targets-gone b bundles gone)) rest
        | inr (t, found) ↦
            subst P (sym (current_targets-found b bundles t found)) (planned b.name t found, rest)
      ]

-- Every bundle that CurrentCertificateBundles keeps has the name and the targets of a plan of a zone whose
-- certificate is enabled.
pub current_certificate_bundles-Planned :
    (zones : List ManagedZone) (bundles : List CertificateBundle)
    → All (λ b. Planned zones b.name b.deploy_targets) (current_certificate_bundles zones bundles)
unfolding current_certificate_bundles
current_certificate_bundles-Planned zones bundles =
    current_targets-Planned zones (certificate_plan_targets zones)
      (certificate_plan_targets-Planned zones) bundles

apply_targets-current_targets :
    (m : Mapping (List Text)) (bundles : List CertificateBundle)
    → apply_targets m (current_targets m bundles) ≡ current_targets m bundles
unfolding apply_targets current_targets
apply_targets-current_targets m [] = refl
apply_targets-current_targets m (b ∷ bundles) =
    ground (arith, Option-cases (get b.name m), apply_targets-current_targets m bundles)

current_targets-apply_targets :
    (m : Mapping (List Text)) (bundles : List CertificateBundle)
    → current_targets m (apply_targets m bundles) ≡ current_targets m bundles
unfolding apply_targets current_targets
current_targets-apply_targets m [] = refl
current_targets-apply_targets m (b ∷ bundles) =
    ground (arith, Option-cases (get b.name m), current_targets-apply_targets m bundles)

-- The order in which targets are applied and stale bundles dropped does not matter: either way the result
-- is that of CurrentCertificateBundles.
pub current_certificate_bundles-apply_certificate_plan_targets :
    (zones : List ManagedZone) (bundles : List CertificateBundle)
    → (current_certificate_bundles zones (apply_certificate_plan_targets zones bundles)
        ≡ current_certificate_bundles zones bundles)
      × (apply_certificate_plan_targets zones (current_certificate_bundles zones bundles)
          ≡ current_certificate_bundles zones bundles)
unfolding current_certificate_bundles apply_certificate_plan_targets
current_certificate_bundles-apply_certificate_plan_targets zones bundles =
    let m = certificate_plan_targets zones in
    (current_targets-apply_targets m bundles, apply_targets-current_targets m bundles)
