-- ===== src/Config/Checks/Scans.antt =====
-- The loops of Validate that report nothing.
use domux.Prelude.{
  ◌≡◌, refl, false, ◌||◌, Option, none, List, [], ◌∷◌, ◌++◌, arith, map, Bool-cases, Option-cases,
  All,
}
use domux.Text.{Text}
use domux.Text.Equality.{eq_iff}
use domux.Core.Names.{elem, Distinct}
use domux.Config.Checks.{scan, admit}

-- no text stands twice, or in the first list
abbrev pub Fresh : List Text → List Text → Type 0
Fresh seen [] = Unit
Fresh seen (x ∷ xs) = (elem x seen ≡ false) × Fresh (x ∷ seen) xs

pub append-nil_left : {E : Type 0} (xs ys : List E) → xs ++ ys ≡ [] → xs ≡ []
append-nil_left [] ys h = refl
append-nil_left (x ∷ xs) ys h = absurd (cc h)

pub append-nil_right : {E : Type 0} (xs ys : List E) → xs ++ ys ≡ [] → ys ≡ []
append-nil_right [] ys h = h
append-nil_right (x ∷ xs) ys h = absurd (cc h)

-- no text of the list is in the set
abbrev Apart : List Text → List Text → Type 0
Apart seen = All (λ x. elem x seen ≡ false)

Apart-cons :
    (y : Text) (seen xs : List Text) → Apart (y ∷ seen) xs → Apart seen xs × (elem y xs ≡ false)
unfolding elem
Apart-cons y seen [] h = (tt, refl)
Apart-cons y seen (x ∷ xs) h =
    let rest = Apart-cons y seen xs h.1 in
    ((ground (arith, h.0), rest.0), ground (arith, h.0, rest.1, eq_iff x y, eq_iff y x))

Fresh-Apart : (seen xs : List Text) → Fresh seen xs → Distinct xs × Apart seen xs
Fresh-Apart seen [] h = (tt, tt)
Fresh-Apart seen (x ∷ xs) h =
    let rest = Fresh-Apart (x ∷ seen) xs h.1 in
    let apart = Apart-cons x seen xs rest.1 in ((apart.1, rest.0), (h.0, apart.0))

pub Fresh-Distinct : (xs : List Text) → Fresh [] xs → Distinct xs
Fresh-Distinct xs h = (Fresh-Apart [] xs h).0

module _ {E A : Type 0} (invalid : A → Option E) (duplicate : A → E) (name : A → Text) where
  abbrev step : List Text → A → List E × List Text
  step seen a = admit (invalid a) (duplicate a) (name a) seen

  step-nil :
      (seen : List Text) (a : A)
      → (step seen a).0 ≡ []
      → ((invalid a ≡ none) × (elem (name a) seen ≡ false)) × ((step seen a).1 ≡ name a ∷ seen)
  step-nil seen a h = ground (arith, h, Option-cases (invalid a), Bool-cases (elem (name a) seen))

  -- Where a loop over named items reports nothing, the names are new and every item is valid.
  pub scan-admit :
      (seen : List Text) (items : List A)
      → (scan step seen items).0 ≡ []
      → Fresh seen (map name items) × All (λ a. invalid a ≡ none) items
  unfolding scan
  scan-admit seen [] h = (tt, tt)
  scan-admit seen (a ∷ items) h =
      let first = step-nil seen a (append-nil_left (step seen a).0 _ h) in
      let later = append-nil_right (step seen a).0 _ h in
      let rest = scan-admit (name a ∷ seen) items (rw first.1 at later) in
      ((first.0.1, rest.0), (first.0.0, rest.1))

  -- what the loop has then seen
  pub elem-scan :
      (k : Text) (seen : List Text) (items : List A)
      → (scan step seen items).0 ≡ []
      → elem k (scan step seen items).1 ≡ (elem k seen || elem k (map name items))
  unfolding scan elem
  elem-scan k seen [] h = ground arith
  elem-scan k seen (a ∷ items) h =
      let first = step-nil seen a (append-nil_left (step seen a).0 _ h) in
      let later = append-nil_right (step seen a).0 _ h in
      let rest = elem-scan k (name a ∷ seen) items (rw first.1 at later) in
      ground (arith, first.1, rest)
