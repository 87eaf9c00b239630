-- ===== src/Providers/Spaceship/Listing.antt =====
-- The listing of all pages, and what Upsert leaves alone.
use domux.Prelude.{
  ℕ, zero, suc, ◌+◌, ◌≤◌, ◌<◌, ◌≡◌, refl, sym, ◌∙◌, ap, true, false, some, List, [], ◌∷◌, ◌++◌,
  arith, inl, inr, Bool-cases, length, length-append, is_empty, append_assoc, append-nil,
}
use domux.Prelude.Int.{pos}
use domux.Prelude.Result.{ok}
use domux.Text.{Text}
use domux.Providers.Spaceship.{Api, SpaceshipRecord, page_size, complete, list_pages}

-- the first n elements, and those behind them
unfoldable pub take : {A : Type 0} → ℕ → List A → List A
take zero xs = []
take (suc n) [] = []
take (suc n) (x ∷ xs) = x ∷ take n xs

unfoldable pub drop : {A : Type 0} → ℕ → List A → List A
drop zero xs = xs
drop (suc n) [] = []
drop (suc n) (x ∷ xs) = drop n xs

take-drop : {A : Type 0} (n : ℕ) (xs : List A) → take n xs ++ drop n xs ≡ xs
unfolding take drop
take-drop zero xs = refl
take-drop (suc n) [] = refl
take-drop (suc n) (x ∷ xs) = ap (λ ys. x ∷ ys) (take-drop n xs)

zero_sum : (n : ℕ) → n ≡ 0 + n
zero_sum n = omega arith

suc_sum : (m n : ℕ) → suc (m + n) ≡ suc m + n
suc_sum m n = omega arith

drop-nil : {A : Type 0} (n : ℕ) → drop {A = A} n [] ≡ []
unfolding drop
drop-nil zero = refl
drop-nil (suc n) = refl

drop-drop : {A : Type 0} (m n : ℕ) (xs : List A) → drop n (drop m xs) ≡ drop (m + n) xs
unfolding drop
drop-drop zero n xs = ap (λ k. drop k xs) (zero_sum n)
drop-drop (suc m) n [] = drop-nil n ∙ sym (drop-nil (suc m + n))
drop-drop (suc m) n (x ∷ xs) = drop-drop m n xs ∙ ap (λ k. drop k (x ∷ xs)) (suc_sum m n)

-- a page that is not empty makes the rest shorter
length-drop :
    {A : Type 0} (n : ℕ) (xs : List A)
    → length xs ≤ length (drop (suc n) xs) + length (take (suc n) xs)
unfolding take drop
length-drop n [] = omega arith
length-drop zero (x ∷ xs) = omega arith
length-drop (suc n) (x ∷ xs) = omega (arith, length-drop n xs)

take-empty :
    {A : Type 0} (n : ℕ) (xs : List A) → is_empty (take (suc n) xs) ≡ true → drop (suc n) xs ≡ []
unfolding take drop
take-empty n [] h = refl
take-empty n (x ∷ xs) h = absurd (cc h)

length_nil : {A : Type 0} (xs : List A) → length xs ≤ 0 → xs ≡ []
length_nil [] h = refl
length_nil (x ∷ xs) h = absurd (omega (arith, h))

empty_length : {A : Type 0} (xs : List A) → is_empty xs ≡ false → 0 < length xs
empty_length [] h = absurd (cc h)
empty_length (x ∷ xs) h = omega arith

module _ {State Failure : Type 0} (api : Api State Failure) (domain : Text) (s : State)
    (all : List SpaceshipRecord)
    (law : (k : ℕ) → api.page domain k s ≡ ok (take page_size (drop k all), pos (length all))) where
  abbrev page : ℕ → List SpaceshipRecord
  page skip = take page_size (drop skip all)

  split :
      (skip : ℕ) (acc : List SpaceshipRecord)
      → acc ++ drop skip all ≡ all
      → (acc ++ page skip) ++ drop (skip + page_size) all ≡ all
  split skip acc h =
      append_assoc acc (page skip) _
      ∙ ap (λ xs. acc ++ (page skip ++ xs)) (sym (drop-drop skip page_size all))
      ∙ ap (λ xs. acc ++ xs) (take-drop page_size (drop skip all))
      ∙ h

  ended :
      (skip : ℕ) (acc : List SpaceshipRecord)
      → acc ++ drop skip all ≡ all
      → complete (page skip) (acc ++ page skip) (pos (length all)) ≡ true
      → acc ++ page skip ≡ all
  ended skip acc h c =
      let whole = split skip acc h in
      let nothing : drop (skip + page_size) all ≡ [] = elim (Bool-cases (is_empty (page skip))) [
        | inl none_left ↦
            sym (drop-drop skip page_size all) ∙ take-empty 499 (drop skip all) none_left
        | inr some_left ↦ length_nil _ (
            ground (
              arith,
              c,
              some_left,
              sym (length-append (acc ++ page skip) (drop (skip + page_size) all))
                  ∙ ap length whole,
            ))
      ] in
      sym (append-nil (acc ++ page skip))
      ∙ ap (λ xs. (acc ++ page skip) ++ xs) (sym nothing)
      ∙ whole

  shorter :
      (skip : ℕ) (acc : List SpaceshipRecord)
      → complete (page skip) (acc ++ page skip) (pos (length all)) ≡ false
      → length (drop (skip + page_size) all) < length (drop skip all)
  shorter skip acc c =
      let parts =
        sym (length-append (page skip) (drop page_size (drop skip all)))
        ∙ ap length (take-drop page_size (drop skip all)) in
      let same = ap length (drop-drop skip page_size all) in
      let some_left : is_empty (page skip) ≡ false =
        ground (arith, c, Bool-cases (is_empty (page skip))) in
      omega (arith, parts, same, empty_length (page skip) some_left)

  list_pages-rest :
      (fuel skip : ℕ) (acc : List SpaceshipRecord)
      → acc ++ drop skip all ≡ all
      → length (drop skip all) < fuel
      → list_pages api domain s fuel skip acc ≡ some (ok all)
  unfolding list_pages
  list_pages-rest zero skip acc h enough = absurd (omega (arith, enough))
  list_pages-rest (suc fuel) skip acc h enough =
      elim (Bool-cases (complete (page skip) (acc ++ page skip) (pos (length all)))) [
        | inl last ↦ ground (arith, law skip, last, ended skip acc h last)
        | inr more ↦
            let less = shorter skip acc more in
            ground (
              arith,
              law skip,
              more,
              list_pages-rest fuel (skip + page_size) (acc ++ page skip) (split skip acc h)
                  (omega (arith, less, enough)),
            )
      ]

  -- The loop over the pages ends and gives all records of the domain, where every page holds the 500
  -- records from its offset and names the number of all records; one round more than there are records is
  -- fuel enough.
  pub list_pages-all :
      (fuel : ℕ) → length all < fuel → list_pages api domain s fuel 0 [] ≡ some (ok all)
  unfolding drop
  list_pages-all fuel enough = list_pages-rest fuel 0 [] refl enough
