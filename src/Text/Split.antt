-- ===== src/Text/Split.antt =====
-- Splitting at a separator and joining.
use domux.Prelude.{ℕ, ◌≡◌, ◌≢◌, refl, sym, List, [], ◌∷◌, ◌++◌, arith, append_assoc, All}
use domux.Text.{Text, extend, split, join, before}

extend-ne-nil : (c : ℕ) (ps : List Text) → extend c ps ≢ []
unfolding extend
extend-ne-nil c [] h = cc
extend-ne-nil c (p ∷ ps) h = cc

module _ (sep : ℕ) where
  pub split-ne-nil : (s : Text) → split sep s ≢ []
  unfolding split
  split-ne-nil [] h = cc
  split-ne-nil (c ∷ s) h = ground (arith, extend-ne-nil c (split sep s))

  extend-append : (c : ℕ) (ps qs : List Text) → ps ≢ [] → extend c (ps ++ qs) ≡ extend c ps ++ qs
  unfolding extend
  extend-append c [] qs h = absurd (h refl)
  extend-append c (p ∷ ps) qs h = refl

  -- A separator in the text separates the labels.
  pub split-append : (s t : Text) → split sep (s ++ sep ∷ t) ≡ split sep s ++ split sep t
  unfolding split
  split-append [] t = ground arith
  split-append (c ∷ s) t =
      ground (arith, split-append s t, extend-append c (split sep s) (split sep t) (split-ne-nil s))

  join-extend : (c : ℕ) (ps : List Text) → join sep (extend c ps) ≡ c ∷ join sep ps
  unfolding join extend
  join-extend c [] = refl
  join-extend c (p ∷ []) = refl
  join-extend c (p ∷ q ∷ ps) = refl

  join-nil-cons : (ps : List Text) → ps ≢ [] → join sep ([] ∷ ps) ≡ sep ∷ join sep ps
  unfolding join
  join-nil-cons [] h = absurd (h refl)
  join-nil-cons (p ∷ ps) h = refl

  pub join-split : (s : Text) → join sep (split sep s) ≡ s
  unfolding split
  join-split [] = unfold join in refl
  join-split (c ∷ s) = ground (
    arith,
    join-split s,
    join-extend c (split sep s),
    join-nil-cons (split sep s) (split-ne-nil s),
  )

  pub join-append :
      (ps qs : List Text)
      → ps ≢ []
      → qs ≢ []
      → join sep (ps ++ qs) ≡ join sep ps ++ sep ∷ join sep qs
  unfolding join
  join-append [] qs h k = absurd (h refl)
  join-append (p ∷ []) [] h k = absurd (k refl)
  join-append (p ∷ []) (q ∷ qs) h k = refl
  join-append (p ∷ r ∷ ps) qs h k =
      rw (join-append (r ∷ ps) qs (cc) k) (sym (append_assoc p (sep ∷ join sep (r ∷ ps)) _))

  -- The text before the first separator: all of a text that has none.
  pub before_none : (s : Text) → All (λ c. c ≢ sep) s → before sep s ≡ s
  unfolding before
  before_none [] h = refl
  before_none (c ∷ s) h = ground (arith, before_none s h.1)

  pub before-append : (s t : Text) → All (λ c. c ≢ sep) s → before sep (s ++ sep ∷ t) ≡ s
  unfolding before
  before-append [] t h = ground arith
  before-append (c ∷ s) t h = ground (arith, before-append s t h.1)
