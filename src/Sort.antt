-- ===== src/Sort.antt =====
-- sort.Slice, sort.Strings and sort.Ints, by insertion. The program's comparisons are total
-- preorders; where two elements compare equal, Go leaves their order open, and here it is kept.
use mathlib.Core.List.{Perm}
use mathlib.Core.List.Perm
use domux.Prelude.{
  ◌≡◌, Bool, true, false, List, [], ◌∷◌, arith, Bool-cases, inl, inr, All, if◌then◌else◌,
}
use domux.Text.{Text, ◌==◌, le_text}
use domux.Text.Equality.{eq_iff, le_text_total, le_text_trans, le_text_antisymm}

module _ {ℓ} {A : Type ℓ} (le : A → A → Bool) where
  unfoldable pub insert : A → List A → List A
  insert x [] = x ∷ []
  insert x (y ∷ ys) = if le x y then x ∷ y ∷ ys else y ∷ insert x ys

  unfoldable pub sort : List A → List A
  unfolding insert
  sort [] = []
  sort (x ∷ xs) = insert x (sort xs)

  -- every element is below those behind it
  abbrev pub Ascending : List A → Type 0
  Ascending [] = Unit
  Ascending (x ∷ xs) = All (λ y. le x y ≡ true) xs × Ascending xs

  insert-perm : (x : A) (xs : List A) → Perm (insert x xs) (x ∷ xs)
  unfolding insert
  insert-perm x [] = Perm.rfl
  insert-perm x (y ∷ ys) = elim (Bool-cases (le x y)) [
    | inl p ↦ rw p Perm.rfl
    | inr p ↦ rw p (Perm.trans (Perm.cons y (insert-perm x ys)) (Perm.swap x y ys))
  ]

  pub sort-perm : (xs : List A) → Perm (sort xs) xs
  unfolding sort
  sort-perm [] = Perm.rfl
  sort-perm (x ∷ xs) = Perm.trans (insert-perm x (sort xs)) (Perm.cons x (sort-perm xs))

  module _ (total : (a b : A) → le a b ≡ false → le b a ≡ true)
      (trans : (a b c : A) → le a b ≡ true → le b c ≡ true → le a c ≡ true) where
    below-All :
        (x y : A) (ys : List A)
        → le x y ≡ true
        → All (λ z. le y z ≡ true) ys
        → All (λ z. le x z ≡ true) ys
    below-All x y [] h k = tt
    below-All x y (z ∷ zs) h k = (trans x y z h k.0, below-All x y zs h k.1)

    below_insert :
        (y x : A) (ys : List A)
        → le y x ≡ true
        → All (λ z. le y z ≡ true) ys
        → All (λ z. le y z ≡ true) (insert x ys)
    unfolding insert
    below_insert y x [] h k = (h, tt)
    below_insert y x (z ∷ zs) h k = elim (Bool-cases (le x z)) [
      | inl p ↦ rw p (h, k)
      | inr p ↦ rw p (k.0, below_insert y x zs h k.1)
    ]

    insert-Ascending : (x : A) (xs : List A) → Ascending xs → Ascending (insert x xs)
    unfolding insert
    insert-Ascending x [] h = (tt, tt)
    insert-Ascending x (y ∷ ys) h = elim (Bool-cases (le x y)) [
      | inl p ↦ rw p ((p, below-All x y ys p h.0), h)
      | inr p ↦ rw p (below_insert y x ys (total x y p) h.0, insert-Ascending x ys h.1)
    ]

    pub sort-Ascending : (xs : List A) → Ascending (sort xs)
    unfolding sort
    sort-Ascending [] = tt
    sort-Ascending (x ∷ xs) = insert-Ascending x (sort xs) (sort-Ascending xs)

-- Comparison by a text, then by another comparison.
module _ {ℓ} {A : Type ℓ} (key : A → Text) where
  abbrev pub by_key : A → A → Bool
  by_key a b = le_text (key a) (key b)

  pub by_key_total : (a b : A) → by_key a b ≡ false → by_key b a ≡ true
  by_key_total a b = le_text_total (key a) (key b)

  pub by_key_trans : (a b c : A) → by_key a b ≡ true → by_key b c ≡ true → by_key a c ≡ true
  by_key_trans a b c = le_text_trans (key a) (key b) (key c)

  module _ (le : A → A → Bool) where
    abbrev pub by_key_then : A → A → Bool
    by_key_then a b = if key a == key b then le a b else le_text (key a) (key b)

    pub by_key_then_total :
        ((a b : A) → le a b ≡ false → le b a ≡ true)
        → (a b : A) → by_key_then a b ≡ false
        → by_key_then b a ≡ true
    by_key_then_total total a b = ground (
      arith,
      total a b,
      eq_iff (key a) (key b),
      eq_iff (key b) (key a),
      le_text_total (key a) (key b),
    )

    pub by_key_then_trans :
        ((a b c : A) → le a b ≡ true → le b c ≡ true → le a c ≡ true)
        → (a b c : A) → by_key_then a b ≡ true
        → by_key_then b c ≡ true
        → by_key_then a c ≡ true
    by_key_then_trans trans a b c = ground (
      arith,
      trans a b c,
      eq_iff (key a) (key b),
      eq_iff (key b) (key c),
      eq_iff (key a) (key c),
      le_text_trans (key a) (key b) (key c),
      le_text_antisymm (key a) (key b),
    )
