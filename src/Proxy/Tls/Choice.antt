-- ===== src/Proxy/Tls/Choice.antt =====
-- Which certificate a client gets.
use domux.Prelude.{
  ◌≡◌, ◌≢◌, refl, sym, ap, none, some, List, [], ◌∷◌, ◌++◌, arith, ℕ, zero, suc, subst, ◌<◌, inl,
  inr, length, Option-cases,
}
use domux.Text.{Text, to_lower, split, join}
use domux.Text.Equality.{eq_iff}
use domux.Mapping.{Mapping, get}
use domux.Proxy.Tls.{CertStore, wildcard_for, choose, get_certificate}

-- No wildcard covers the labels with fewer than `bound` of them in front.
abbrev pub NoneBefore {ℓ} : {Cert : Type ℓ} → Mapping Cert → List Text → ℕ → Type ℓ
NoneBefore wildcards parts bound =
    (front base : List Text)
    → parts ≡ front ++ base
    → front ≢ []
    → base ≢ []
    → length front < bound
    → get (join b'.' base) wildcards ≡ none

-- The certificate of the longest base for which there is a wildcard, below at least one label.
pub record IsLongest {ℓ} {Cert : Type ℓ} (wildcards : Mapping Cert) (parts : List Text)
    (cert : Cert) : Type ℓ where
  pub front : List Text
  pub base : List Text
  pub parts_eq : parts ≡ front ++ base
  pub front_ne : front ≢ []
  pub base_ne : base ≢ []
  pub found : get (join b'.' base) wildcards ≡ some cert
  pub longest : NoneBefore wildcards parts (length front)

nil_of_append {ℓ} : {A : Type ℓ} (xs ys : List A) → [] ≡ xs ++ ys → ys ≡ []
nil_of_append [] ys e = sym e
nil_of_append (x ∷ xs) ys e = cc

no_front : (front : List Text) → front ≢ [] → length front < 1 → ⊥
no_front [] f lt = f refl
no_front (x ∷ front) f lt = omega arith

module _ {ℓ} {Cert : Type ℓ} (wildcards : Mapping Cert) where
  none_cons :
      (p q : Text) (ps : List Text) (bound : ℕ)
      → get (join b'.' (q ∷ ps)) wildcards ≡ none
      → NoneBefore wildcards (q ∷ ps) bound
      → NoneBefore wildcards (p ∷ q ∷ ps) (suc bound)
  none_cons p q ps bound first rest [] base e f b lt = absurd (f refl)
  none_cons p q ps bound first rest (x ∷ []) base e f b lt =
      let same : q ∷ ps ≡ base = cc in
      subst (λ (z : List Text). get (join b'.' z) wildcards ≡ none) same first
  none_cons p q ps bound first rest (x ∷ y ∷ front) base e f b lt =
      rest (y ∷ front) base (cc) (cc) b (omega arith)

  wildcard_for-none :
      (parts : List Text) (bound : ℕ)
      → wildcard_for wildcards parts ≡ none
      → NoneBefore wildcards parts bound
  unfolding wildcard_for
  wildcard_for-none [] bound h [] base e f b lt = absurd (f refl)
  wildcard_for-none [] bound h (x ∷ front) base e f b lt = cc
  wildcard_for-none (p ∷ []) bound h [] base e f b lt = absurd (f refl)
  wildcard_for-none (p ∷ []) bound h (x ∷ front) base e f b lt =
      absurd (b (nil_of_append front base (cc)))
  wildcard_for-none (p ∷ q ∷ ps) zero h front base e f b lt = absurd (omega arith)
  wildcard_for-none (p ∷ q ∷ ps) (suc bound) h front base e f b lt =
      none_cons p q ps bound (ground arith)
        (λ x y. wildcard_for-none (q ∷ ps) bound (ground arith) x y) front base e f b lt

  IsLongest-cons :
      (p q : Text) (ps : List Text) (cert : Cert)
      → get (join b'.' (q ∷ ps)) wildcards ≡ none
      → IsLongest wildcards (q ∷ ps) cert
      → IsLongest wildcards (p ∷ q ∷ ps) cert
  IsLongest-cons p q ps cert missing l = record {
    front = p ∷ l.front;
    base = l.base;
    parts_eq = ap (◌∷◌ p) l.parts_eq;
    front_ne = cc;
    base_ne = l.base_ne;
    found = l.found;
    longest = none_cons p q ps (length l.front) missing l.longest;
  }

  wildcard_for_sound :
      (parts : List Text) (cert : Cert)
      → wildcard_for wildcards parts ≡ some cert
      → IsLongest wildcards parts cert
  unfolding wildcard_for
  wildcard_for_sound [] cert h = cc
  wildcard_for_sound (p ∷ []) cert h = cc
  wildcard_for_sound (p ∷ q ∷ ps) cert h =
      elim (Option-cases (get (join b'.' (q ∷ ps)) wildcards)) [
        | inl missing ↦
            IsLongest-cons p q ps cert missing (wildcard_for_sound (q ∷ ps) cert (ground arith))
        | inr (c, hit) ↦ record {
          front = p ∷ [];
          base = q ∷ ps;
          parts_eq = refl;
          front_ne = cc;
          base_ne = cc;
          found = ground arith;
          longest = λ front base e f b lt. absurd (no_front front f lt);
        }
      ]

-- What a client that names a host is given.
pub data Choice {ℓ} {Cert : Type ℓ} (s : CertStore Cert) (fallback : Cert) (host : Text)
    (cert : Cert) : Type ℓ where
  by_name : get host s.exact ≡ some cert → Choice s fallback host cert
  by_wildcard :
      get host s.exact ≡ none
      → IsLongest s.wildcards (split b'.' host) cert
      → Choice s fallback host cert
  by_default :
      get host s.exact ≡ none
      → ((bound : ℕ) → NoneBefore s.wildcards (split b'.' host) bound)
      → cert ≡ fallback
      → Choice s fallback host cert

module _ {ℓ} {Cert : Type ℓ} (unicode_lower : ℕ → ℕ) (s : CertStore Cert) where
  choose-Choice : (fallback : Cert) (host : Text) → Choice s fallback host (choose s fallback host)
  unfolding choose
  choose-Choice fallback host = elim (Option-cases (get host s.exact)) [
    | inr (cert, hit) ↦ by_name (ground arith)
    | inl miss ↦ elim (Option-cases (wildcard_for s.wildcards (split b'.' host))) [
      | inr (cert, hit) ↦ by_wildcard miss (wildcard_for_sound s.wildcards _ _ (ground arith))
      | inl none_fits ↦
          by_default miss (λ bound. wildcard_for-none s.wildcards _ bound none_fits) (ground arith)
    ]
  ]

  -- With a default certificate, a client that names a host gets the certificate of that name in
  -- lower case, else that of the wildcard with the longest base below at least one label of it,
  -- else the default one, and never an error.
  pub get_certificate-Choice :
      (fallback : Cert) (name : Text)
      → s.default_cert ≡ some fallback
      → name ≢ []
      → (cert : Cert) × (get_certificate unicode_lower (some name) s ≡ some cert)
        × Choice s fallback (to_lower unicode_lower name) cert
  unfolding get_certificate
  get_certificate-Choice fallback name loaded named = (
    choose s fallback (to_lower unicode_lower name),
    ground (arith, eq_iff name []),
    choose-Choice fallback (to_lower unicode_lower name),
  )
