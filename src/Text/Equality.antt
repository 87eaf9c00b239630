-- ===== src/Text/Equality.antt =====
-- Equality and order of texts.
use domux.Prelude.{◌≡◌, ◌≢◌, refl, ◌↔◌, true, false, [], ◌∷◌, arith}
use domux.Text.{Text, ◌==◌, le_text}

pub eq_of_== : (s t : Text) → (s == t) ≡ true → s ≡ t
unfolding ◌==◌
eq_of_== [] [] h = refl
eq_of_== [] (b ∷ t) h = ground arith
eq_of_== (a ∷ s) [] h = ground arith
eq_of_== (a ∷ s) (b ∷ t) h = ground (arith, eq_of_== s t)

pub ==_refl : (s : Text) → (s == s) ≡ true
unfolding ◌==◌
==_refl [] = refl
==_refl (a ∷ s) = ground (arith, ==_refl s)

pub eq_iff : (s t : Text) → ((s == t) ≡ true) ↔ (s ≡ t)
eq_iff s t = (eq_of_== s t, λ e. subst_refl e)
  where
    subst_refl : s ≡ t → (s == t) ≡ true
    subst_refl e = rw e (==_refl t)

pub ne_of_== : (s t : Text) → (s == t) ≡ false → s ≢ t
ne_of_== s t h e = cc (h, (eq_iff s t).1 e)

pub ==_of_ne : (s t : Text) → s ≢ t → (s == t) ≡ false
==_of_ne s t h = ground (arith, eq_iff s t)

pub le_text_refl : (s : Text) → le_text s s ≡ true
unfolding le_text
le_text_refl [] = refl
le_text_refl (a ∷ s) = ground (arith, le_text_refl s)

pub le_text_total : (s t : Text) → le_text s t ≡ false → le_text t s ≡ true
unfolding le_text
le_text_total [] t h = ground arith
le_text_total (a ∷ s) [] h = refl
le_text_total (a ∷ s) (b ∷ t) h = ground (arith, le_text_total s t)

pub le_text_trans : (s t u : Text) → le_text s t ≡ true → le_text t u ≡ true → le_text s u ≡ true
unfolding le_text
le_text_trans [] t u h k = refl
le_text_trans (a ∷ s) [] u h k = ground arith
le_text_trans (a ∷ s) (b ∷ t) [] h k = ground arith
le_text_trans (a ∷ s) (b ∷ t) (c ∷ u) h k = ground (arith, le_text_trans s t u)

pub le_text_antisymm : (s t : Text) → le_text s t ≡ true → le_text t s ≡ true → s ≡ t
unfolding le_text
le_text_antisymm [] [] h k = refl
le_text_antisymm [] (b ∷ t) h k = ground arith
le_text_antisymm (a ∷ s) [] h k = ground arith
le_text_antisymm (a ∷ s) (b ∷ t) h k = ground (arith, le_text_antisymm s t)
