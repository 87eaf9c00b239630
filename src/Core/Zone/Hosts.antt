-- ===== src/Core/Zone/Hosts.antt =====
-- ManagedZone.Hostname and the domain of the zone.
use domux.Prelude.{
  ◌≡◌, ◌≢◌, refl, ap, ◌∙◌, true, false, [], ◌∷◌, ◌++◌, arith, Bool-cases, inl, inr, ◌⊎◌, nat_eq,
  ◌&&◌, sym,
}
use domux.Text.{Text, ◌==◌, is_space, trim_space, trim_suffix, trim_prefix, has_prefix}
use domux.Text.Equality.{ne_of_==}
use domux.Text.Affix.{trim_prefix_none, trim_suffix_append_cons}
use domux.Text.Trim.{trim_space-append, trim_space-trim_space}
use domux.Core.Types.{ManagedZone}
use domux.Core.Names.{domain_within_managed_domain, dot, star_dot}
use domux.Core.Names.Within.{managed_name, target_name, within_of_eq, within_of_suffix}
use domux.Core.Zone.{hostname}

-- A zone's domain as the configuration leaves it: trimmed, not empty and not a wildcard.
pub record IsPlainDomain (d : Text) : Type 0 where
  pub trimmed : trim_space d ≡ d
  pub filled : d ≢ []
  pub no_star : has_prefix star_dot (trim_suffix dot d) ≡ false

unstar :
    (x m : Text)
    → (trim_prefix star_dot (x ++ b'.' ∷ m) ≡ m)
      ⊎ ((y : Text) × (trim_prefix star_dot (x ++ b'.' ∷ m) ≡ y ++ b'.' ∷ m))
unfolding trim_prefix
unstar [] m = inr ([], refl)
unstar (c ∷ []) m = elim (Bool-cases (nat_eq b'*' c)) [
  | inl star ↦ inl (ground arith)
  | inr other ↦ inr (c ∷ [], ground arith)
]
unstar (c ∷ e ∷ x) m = elim (Bool-cases (nat_eq b'*' c && nat_eq b'.' e)) [
  | inl star ↦ inr (x, ground arith)
  | inr other ↦ inr (c ∷ e ∷ x, ground arith)
]

under_domain :
    (d x : Text)
    → IsPlainDomain d
    → x ≢ []
    → trim_space x ≡ x
    → domain_within_managed_domain d (x ++ b'.' ∷ d) ≡ true
unfolding is_space
under_domain d x p h hx =
    let managed : managed_name d ≡ trim_suffix dot d = ap (trim_suffix dot) p.trimmed in
    let target : target_name (x ++ b'.' ∷ d) ≡ trim_prefix star_dot (x ++ b'.' ∷ managed_name d) =
      ap (λ (t : Text). trim_prefix star_dot (trim_suffix dot t))
        (trim_space-append x d b'.' h hx p.trimmed refl)
      ∙ ap (trim_prefix star_dot) (trim_suffix_append_cons b'.' b'.' x d p.filled)
      ∙ ap (λ (t : Text). trim_prefix star_dot (x ++ b'.' ∷ t)) (sym managed) in
    elim (unstar x (managed_name d)) [
      | inl same ↦ within_of_eq d (x ++ b'.' ∷ d) (target ∙ same)
      | inr (y, below) ↦ within_of_suffix d (x ++ b'.' ∷ d) y (target ∙ below)
    ]

itself : (d : Text) → IsPlainDomain d → domain_within_managed_domain d d ≡ true
itself d p = within_of_eq d d (
    ap (λ (t : Text). trim_prefix star_dot (trim_suffix dot t)) p.trimmed
    ∙ trim_prefix_none star_dot (trim_suffix dot d) p.no_star
    ∙ ap (trim_suffix dot) (sym p.trimmed))

-- Every host name of a zone with a plain domain is within that domain, whatever the subdomain.
pub hostname-domain_within_managed_domain :
    (z : ManagedZone) (subdomain : Text)
    → IsPlainDomain z.domain
    → domain_within_managed_domain z.domain (hostname z subdomain) ≡ true
unfolding hostname
hostname-domain_within_managed_domain z subdomain p =
    let sub = trim_space subdomain in
    elim (Bool-cases (sub == [])) [
      | inl blank ↦ rw blank (itself z.domain p)
      | inr filled ↦
          rw filled
            (under_domain z.domain sub p (ne_of_== sub [] filled) (trim_space-trim_space subdomain))
    ]
