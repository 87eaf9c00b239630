-- ===== src/Core/Zone/Described.antt =====
-- The plans of CertificatePlans, described without its code.
use domux.Prelude.{
  ◌≡◌, ◌≢◌, ◌⊎◌, refl, true, false, List, [], ◌∷◌, ◌++◌, arith, Bool-cases, inl, inr, if◌then◌else◌,
}
use domux.Prelude.Int.{pos, negsuc, is_zero}
use domux.Text.{Text, codes, ◌==◌, trim_space}
use domux.Text.Equality.{eq_iff}
use domux.Core.Types.{
  Duration, ManagedZone, CertificatePlan, CertificateBundlePolicy, default_certificate_renew_before,
}
use domux.Core.Names.{compact_names, qualified_bundle_name}
use domux.Core.Zone.{or_default}

-- The names of the bundle, or else those of the zone.
pub data FilledNames (own default result : List Text) : Type 0 where
  own_names : own ≢ [] → result ≡ own → FilledNames own default result
  zone_names : own ≡ [] → result ≡ default → FilledNames own default result

-- The time of the bundle, or else that of the zone, or else twenty days.
pub data FilledTime (own default result : Duration) : Type 0 where
  own_time : own ≢ pos 0 → result ≡ own → FilledTime own default result
  zone_time : own ≡ pos 0 → default ≢ pos 0 → result ≡ default → FilledTime own default result
  standard_time :
      own ≡ pos 0
      → default ≡ pos 0
      → result ≡ pos 1_728_000_000_000_000
      → FilledTime own default result

-- The name of the zone, alone or with the trimmed name of the bundle behind a colon.
pub data Qualified (zone bundle result : Text) : Type 0 where
  zone_itself : trim_space bundle ≡ zone → result ≡ zone → Qualified zone bundle result
  part_of_zone :
      trim_space bundle ≢ zone
      → result ≡ zone ++ b':' ∷ trim_space bundle
      → Qualified zone bundle result

-- The domain of the zone, and all names under it where the zone has a wildcard.
abbrev pub zone_domains : ManagedZone → List Text
zone_domains z =
    compact_names (z.domain ∷ (if z.wildcard then (codes "*." ++ z.domain) ∷ [] else []))

-- The plan of a bundle of the zone.
pub record IsPlanOf (z : ManagedZone) (b : CertificateBundlePolicy) (p : CertificatePlan)
    : Type 0 where
  pub name : Qualified z.name b.name p.name
  pub domains : FilledNames (compact_names b.domains) (zone_domains z) p.domains
  pub renew_before : FilledTime b.renew_before z.certificate.renew_before p.renew_before
  pub deploy_targets :
      FilledNames
        (compact_names b.deploy_targets)
        (compact_names z.certificate.deploy_targets)
        p.deploy_targets

-- One plan for each bundle, in order.
abbrev pub ArePlansOf : ManagedZone → List CertificateBundlePolicy → List CertificatePlan → Type 0
ArePlansOf z [] [] = Unit
ArePlansOf z [] (p ∷ ps) = ⊥
ArePlansOf z (b ∷ bs) [] = ⊥
ArePlansOf z (b ∷ bs) (p ∷ ps) = IsPlanOf z b p × ArePlansOf z bs ps

pub FilledNames-or_default :
    (own default : List Text) → FilledNames own default (or_default own default)
FilledNames-or_default [] default = zone_names refl refl
FilledNames-or_default (x ∷ xs) default = own_names (λ h. absurd (cc h)) refl

pub FilledNames-unique :
    (own default result : List Text)
    → FilledNames own default result
    → result ≡ or_default own default
FilledNames-unique [] default result (own_names some_own same) = absurd (some_own refl)
FilledNames-unique [] default result (zone_names nil same) = same
FilledNames-unique (x ∷ xs) default result (own_names some_own same) = same
FilledNames-unique (x ∷ xs) default result (zone_names nil same) = absurd (cc nil)

abbrev pub filled_time : Duration → Duration → Duration
filled_time own default =
    if is_zero own
    then (if is_zero default then default_certificate_renew_before else default)
    else own

is_zero_lem : (t : Duration) → is_zero t ≡ true → t ≡ pos 0
is_zero_lem (pos n) h = ground (arith, h)
is_zero_lem (negsuc n) h = absurd (cc h)

is_zero-cases : (t : Duration) → (t ≡ pos 0 × is_zero t ≡ true) ⊎ (t ≢ pos 0 × is_zero t ≡ false)
is_zero-cases t = elim (Bool-cases (is_zero t)) [
  | inl h ↦ inl (is_zero_lem t h, h)
  | inr h ↦ inr (λ e. ground (arith, e, h), h)
]

pub FilledTime-filled_time :
    (own default : Duration) → FilledTime own default (filled_time own default)
FilledTime-filled_time own default = elim (is_zero-cases own) [
  | inr (some_own, h) ↦ own_time some_own (ground (arith, h))
  | inl (nil, h) ↦ elim (is_zero-cases default) [
    | inr (some_default, k) ↦ zone_time nil some_default (ground (arith, h, k))
    | inl (none_at_all, k) ↦ standard_time nil none_at_all (ground (arith, h, k))
  ]
]

pub FilledTime-unique :
    (own default result : Duration)
    → FilledTime own default result
    → result ≡ filled_time own default
FilledTime-unique own default result (own_time some_own same) =
    ground (arith, same, some_own, is_zero-cases own)
FilledTime-unique own default result (zone_time nil some_default same) =
    ground (arith, same, nil, some_default, is_zero-cases own, is_zero-cases default)
FilledTime-unique own default result (standard_time nil none_at_all same) =
    ground (arith, same, nil, none_at_all, is_zero-cases own, is_zero-cases default)

pub Qualified-qualified_bundle_name :
    (zone bundle : Text)
    → trim_space bundle ≢ []
    → Qualified zone bundle (qualified_bundle_name zone bundle)
unfolding qualified_bundle_name
Qualified-qualified_bundle_name zone bundle named = elim (Bool-cases (trim_space bundle == zone)) [
  | inl same ↦
      zone_itself (ground (arith, same, eq_iff (trim_space bundle) zone)) (ground (arith, same))
  | inr other ↦
      part_of_zone (λ e. ground (arith, e, other, eq_iff (trim_space bundle) zone))
        (ground (arith, other, named, eq_iff (trim_space bundle) []))
]

pub Qualified-unique :
    (zone bundle result : Text)
    → trim_space bundle ≢ []
    → Qualified zone bundle result
    → result ≡ qualified_bundle_name zone bundle
unfolding qualified_bundle_name
Qualified-unique zone bundle result named (zone_itself here same) =
    ground (arith, here, same, eq_iff (trim_space bundle) zone)
Qualified-unique zone bundle result named (part_of_zone other same) =
    ground
      (arith, other, same, named, eq_iff (trim_space bundle) zone, eq_iff (trim_space bundle) [])
