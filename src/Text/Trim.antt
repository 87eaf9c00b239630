-- ===== src/Text/Trim.antt =====
-- TrimSpace.
use domux.Prelude.{
  ℕ, ◌≡◌, ◌≢◌, refl, sym, ap, subst, ◌∙◌, Bool, true, false, not, [], ◌∷◌, ◌++◌, arith,
}
use domux.Text.{Text, is_space, trim_left, trim_right, trim_space}

pub trim_right-trim_right : (s : Text) → trim_right (trim_right s) ≡ trim_right s
unfolding trim_right
trim_right-trim_right [] = refl
trim_right-trim_right (c ∷ s) = ground (arith, trim_right-trim_right s)

-- no white space at the front
starts : Text → Bool
starts [] = true
starts (c ∷ s) = not (is_space c)

trim_left-starts : (s : Text) → starts (trim_left s) ≡ true
unfolding trim_left starts
trim_left-starts [] = refl
trim_left-starts (c ∷ s) = ground (arith, trim_left-starts s)

starts-trim_right : (s : Text) → starts s ≡ true → starts (trim_right s) ≡ true
unfolding trim_right starts
starts-trim_right [] h = refl
starts-trim_right (c ∷ s) h = ground arith

trim_left_of_starts : (s : Text) → starts s ≡ true → trim_left s ≡ s
unfolding trim_left starts
trim_left_of_starts [] h = refl
trim_left_of_starts (c ∷ s) h = ground arith

pub trim_space-trim_space : (s : Text) → trim_space (trim_space s) ≡ trim_space s
unfolding trim_space
trim_space-trim_space s =
    rw (trim_left_of_starts _ (starts-trim_right _ (trim_left-starts s)))
      (trim_right-trim_right (trim_left s))

starts-trim_space : (s : Text) → starts (trim_space s) ≡ true
unfolding trim_space
starts-trim_space s = starts-trim_right (trim_left s) (trim_left-starts s)

trim_right_of_trimmed : (s : Text) → trim_space s ≡ s → trim_right s ≡ s
unfolding trim_space
trim_right_of_trimmed s h = ap trim_right (sym h) ∙ trim_right-trim_right (trim_left s) ∙ h

trim_right-append :
    (s t : Text) (c : ℕ) → is_space c ≡ false → trim_right (s ++ c ∷ t) ≡ s ++ c ∷ trim_right t
unfolding trim_right
trim_right-append [] t c h = ground arith
trim_right-append (a ∷ []) t c h = ground (arith, trim_right-append [] t c h)
trim_right-append (a ∷ b ∷ s) t c h = ground (arith, trim_right-append (b ∷ s) t c h)

starts-append : (s t : Text) → s ≢ [] → starts s ≡ true → starts (s ++ t) ≡ true
unfolding starts
starts-append [] t h k = absurd (h refl)
starts-append (a ∷ s) t h k = k

-- Two trimmed texts with a separator between them.
pub trim_space-append :
    (s t : Text) (c : ℕ)
    → s ≢ []
    → trim_space s ≡ s
    → trim_space t ≡ t
    → is_space c ≡ false
    → trim_space (s ++ c ∷ t) ≡ s ++ c ∷ t
unfolding trim_space
trim_space-append s t c h hs ht hc =
    let first : starts s ≡ true = subst (λ x. starts x ≡ true) hs (starts-trim_space s) in
    ap trim_right (trim_left_of_starts (s ++ c ∷ t) (starts-append s (c ∷ t) h first))
    ∙ trim_right-append s t c hc
    ∙ ap (λ (x : Text). s ++ c ∷ x) (trim_right_of_trimmed t ht)
