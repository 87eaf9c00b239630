-- ===== src/Core/Names/Within.antt =====
-- DomainWithinManagedDomain against its meaning on labels.
use domux.Prelude.{◌≡◌, sym, ap, true, List, [], ◌∷◌, ◌++◌, arith, inl, inr, Bool-cases, ◌∙◌, ◌↔◌}
use domux.Text.{Text, ◌==◌, trim_space, trim_suffix, trim_prefix, split, join}
use domux.Text.Equality.{eq_iff}
use domux.Text.Affix.{has_suffix-append, has_suffix_sound}
use domux.Text.Split.{split-append, join-split, join-append, split-ne-nil}
use domux.Core.Names.{domain_within_managed_domain, dot, star_dot}

-- The names that are compared.
abbrev pub managed_name : Text → Text
managed_name domain = trim_suffix dot (trim_space domain)

abbrev pub target_name : Text → Text
target_name domain = trim_prefix star_dot (trim_suffix dot (trim_space domain))

abbrev pub labels : Text → List Text
labels = split b'.'

module _ (m d : Text) where
  within_sound :
      domain_within_managed_domain m d ≡ true
      → (front : List Text) × (labels (target_name d) ≡ front ++ labels (managed_name m))
  unfolding domain_within_managed_domain
  within_sound h = elim (Bool-cases (target_name d == managed_name m)) [
    | inl e ↦ ([], ap labels ((eq_iff _ _).0 e))
    | inr e ↦
        let (r, found) = has_suffix_sound (dot ++ managed_name m) (target_name d) (ground arith) in
        (labels r, ap labels found ∙ split-append b'.' r (managed_name m))
  ]

  pub within_of_eq : target_name d ≡ managed_name m → domain_within_managed_domain m d ≡ true
  unfolding domain_within_managed_domain
  within_of_eq same = ground (arith, eq_iff (target_name d) (managed_name m))

  pub within_of_suffix :
      (front : Text)
      → target_name d ≡ front ++ b'.' ∷ managed_name m
      → domain_within_managed_domain m d ≡ true
  unfolding domain_within_managed_domain
  within_of_suffix front same =
      rw same (ground (arith, has_suffix-append (dot ++ managed_name m) front))

  within_complete :
      (front : List Text)
      → labels (target_name d) ≡ front ++ labels (managed_name m)
      → domain_within_managed_domain m d ≡ true
  within_complete [] h =
      within_of_eq (sym (join-split b'.' _) ∙ ap (join b'.') h ∙ join-split b'.' _)
  within_complete (p ∷ ps) h = within_of_suffix (join b'.' (p ∷ ps)) (
      sym (join-split b'.' (target_name d))
      ∙ ap (join b'.') h
      ∙ join-append b'.' (p ∷ ps) (labels (managed_name m)) (cc) (split-ne-nil b'.' _)
      ∙ ap (λ (t : Text). join b'.' (p ∷ ps) ++ b'.' ∷ t) (join-split b'.' (managed_name m)))

  -- A domain is within a managed domain exactly when its labels end with those of the managed
  -- domain, after white space, one final dot and a wildcard label are taken off.
  pub domain_within_managed_domain_iff :
      (domain_within_managed_domain m d ≡ true)
      ↔ ((front : List Text) × (labels (target_name d) ≡ front ++ labels (managed_name m)))
  domain_within_managed_domain_iff = (within_sound, λ (front, h). within_complete front h)
