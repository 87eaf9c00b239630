-- ===== src/Text/Affix.antt =====
-- Prefixes and suffixes: what the tests find and what is cut off.
use domux.Prelude.{
  ℕ, ◌≡◌, ◌≢◌, refl, ap, true, false, some, [], ◌∷◌, ◌++◌, arith, Bool-cases, Option-cases, inl,
  inr, length, length-append, ◌∙◌,
}
use domux.Text.{
  Text, ◌==◌, cut_prefix, cut_suffix, has_prefix, trim_prefix, has_suffix, trim_suffix,
}
use domux.Text.Equality.{eq_iff, ==_refl}

pub cut_prefix_sound : (p s r : Text) → cut_prefix p s ≡ some r → s ≡ p ++ r
unfolding cut_prefix
cut_prefix_sound [] s r h = ground arith
cut_prefix_sound (a ∷ p) [] r h = ground arith
cut_prefix_sound (a ∷ p) (c ∷ s) r h = ground (arith, cut_prefix_sound p s r)

pub cut_prefix-append : (p r : Text) → cut_prefix p (p ++ r) ≡ some r
unfolding cut_prefix
cut_prefix-append [] r = refl
cut_prefix-append (a ∷ p) r = ground (arith, cut_prefix-append p r)

pub cut_suffix_sound : (p s r : Text) → cut_suffix p s ≡ some r → s ≡ r ++ p
unfolding cut_suffix
cut_suffix_sound p [] r h = ground (arith, eq_iff [] p)
cut_suffix_sound p (c ∷ s) r h = elim (Bool-cases ((c ∷ s) == p)) [
  | inl e ↦ ground (arith, eq_iff (c ∷ s) p)
  | inr e ↦ elim (Option-cases (cut_suffix p s)) [
    | inl n ↦ ground arith
    | inr (q, found) ↦ ground (arith, cut_suffix_sound p s q found)
  ]
]

longer : (c : ℕ) (r p : Text) → (c ∷ (r ++ p)) ≢ p
longer c r p e = omega (arith, ap length e, length-append {0} r p)

pub cut_suffix-append : (p r : Text) → cut_suffix p (r ++ p) ≡ some r
unfolding cut_suffix
cut_suffix-append [] [] = refl
cut_suffix-append (a ∷ p) [] = ground (arith, ==_refl (a ∷ p))
cut_suffix-append p (c ∷ r) =
    ground (arith, eq_iff (c ∷ (r ++ p)) p, longer c r p, cut_suffix-append p r)

pub has_suffix-append : (p r : Text) → has_suffix p (r ++ p) ≡ true
unfolding has_suffix
has_suffix-append p r = rw cut_suffix-append

pub has_suffix_sound : (p s : Text) → has_suffix p s ≡ true → (r : Text) × (s ≡ r ++ p)
unfolding has_suffix
has_suffix_sound p s h = elim (Option-cases (cut_suffix p s)) [
  | inl n ↦ ground arith
  | inr (r, found) ↦ (r, cut_suffix_sound p s r found)
]

pub trim_suffix-append : (p r : Text) → trim_suffix p (r ++ p) ≡ r
unfolding trim_suffix
trim_suffix-append p r = rw cut_suffix-append

pub trim_suffix_none : (p s : Text) → has_suffix p s ≡ false → trim_suffix p s ≡ s
unfolding trim_suffix has_suffix
trim_suffix_none p s h = ground arith

pub has_prefix-append : (p r : Text) → has_prefix p (p ++ r) ≡ true
unfolding has_prefix
has_prefix-append p r = rw cut_prefix-append

pub trim_prefix-append : (p r : Text) → trim_prefix p (p ++ r) ≡ r
unfolding trim_prefix
trim_prefix-append p r = rw cut_prefix-append

pub has_prefix_sound : (p s : Text) → has_prefix p s ≡ true → s ≡ p ++ trim_prefix p s
unfolding has_prefix trim_prefix
has_prefix_sound p s h = elim (Option-cases (cut_prefix p s)) [
  | inl n ↦ ground arith
  | inr (r, found) ↦ ground (arith, cut_prefix_sound p s r found)
]

pub trim_prefix_none : (p s : Text) → has_prefix p s ≡ false → trim_prefix p s ≡ s
unfolding trim_prefix has_prefix
trim_prefix_none p s h = ground arith

-- A suffix of one code point is cut from the end of a longer text.
trim_suffix-cons :
    (p c : ℕ) (s : Text) → s ≢ [] → trim_suffix (p ∷ []) (c ∷ s) ≡ c ∷ trim_suffix (p ∷ []) s
unfolding trim_suffix
trim_suffix-cons p c [] h = absurd (h refl)
trim_suffix-cons p c (a ∷ s) h = ground (arith, eq_iff (c ∷ a ∷ s) (p ∷ []))

pub trim_suffix_append_cons :
    (p c : ℕ) (s t : Text)
    → t ≢ []
    → trim_suffix (p ∷ []) (s ++ c ∷ t) ≡ s ++ c ∷ trim_suffix (p ∷ []) t
trim_suffix_append_cons p c [] t h = trim_suffix-cons p c t h
trim_suffix_append_cons p c (a ∷ s) t h =
    trim_suffix-cons p a (s ++ c ∷ t) (append-ne-nil s)
    ∙ ap (◌∷◌ a) (trim_suffix_append_cons p c s t h)
  where
    append-ne-nil : (x : Text) → (x ++ c ∷ t) ≢ []
    append-ne-nil [] e = cc
    append-ne-nil (b ∷ x) e = cc
