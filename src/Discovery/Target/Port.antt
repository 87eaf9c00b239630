-- ===== src/Discovery/Target/Port.antt =====
-- The port that resolvePort chooses.
use domux.Prelude.{
  ◌≡◌, refl, Bool, true, false, ◌||◌, none, some, List, [], ◌∷◌, arith, All, inl, inr, ◌⊎◌,
  Option-cases, Bool-cases, is_empty, subst, sym, ◌∙◌,
}
use domux.Prelude.Int.{ℤ, pos, negsuc, is_positive, le_int, int_eq}
use domux.Prelude.Result.{ok, err}
use domux.Sort.{insert, sort, Ascending, sort-Ascending}
use domux.Core.Types.{ContainerSnapshot}
use domux.Discovery.Labels.{RouteIntent}
use domux.Discovery.Target.{TargetError, first_positive, resolve_port}

le_int_total : (a b : ℤ) → le_int a b ≡ false → le_int b a ≡ true
le_int_total (pos a) (pos b) h = ground arith
le_int_total (pos a) (negsuc b) h = refl
le_int_total (negsuc a) (pos b) h = ground arith
le_int_total (negsuc a) (negsuc b) h = ground arith

le_int_refl : (a : ℤ) → le_int a a ≡ true
le_int_refl (pos a) = ground arith
le_int_refl (negsuc a) = ground arith

le_int_trans : (a b c : ℤ) → le_int a b ≡ true → le_int b c ≡ true → le_int a c ≡ true
le_int_trans (pos a) (pos b) (pos c) h k = ground arith
le_int_trans (pos a) (pos b) (negsuc c) h k = k
le_int_trans (pos a) (negsuc b) c h k = ground arith
le_int_trans (negsuc a) b (pos c) h k = refl
le_int_trans (negsuc a) (pos b) (negsuc c) h k = ground arith
le_int_trans (negsuc a) (negsuc b) (negsuc c) h k = ground arith

int_eq_iff : (a b : ℤ) → int_eq a b ≡ true → a ≡ b
int_eq_iff (pos a) (pos b) h = ground arith
int_eq_iff (pos a) (negsuc b) h = ground arith
int_eq_iff (negsuc a) (pos b) h = ground arith
int_eq_iff (negsuc a) (negsuc b) h = ground arith

-- whether a number is in a list
unfoldable pub has_int : ℤ → List ℤ → Bool
has_int p [] = false
has_int p (q ∷ qs) = int_eq q p || has_int p qs

has_int-insert :
    (p q : ℤ) (qs : List ℤ) → has_int p (insert le_int q qs) ≡ (int_eq q p || has_int p qs)
unfolding has_int insert
has_int-insert p q [] = refl
has_int-insert p q (r ∷ rs) = ground (arith, has_int-insert p q rs)

has_int-sort : (p : ℤ) (qs : List ℤ) → has_int p (sort le_int qs) ≡ has_int p qs
unfolding has_int sort
has_int-sort p [] = refl
has_int-sort p (q ∷ qs) = ground (arith, has_int-insert p q (sort le_int qs), has_int-sort p qs)

below_member :
    (p q : ℤ) (qs : List ℤ)
    → All (λ r. le_int p r ≡ true) qs
    → has_int q qs ≡ true
    → le_int p q ≡ true
unfolding has_int
below_member p q [] h k = cc
below_member p q (r ∷ rs) h k = elim (Bool-cases (int_eq r q)) [
  | inl same ↦ subst (λ (x : ℤ). le_int p x ≡ true) (int_eq_iff r q same) h.0
  | inr other ↦ below_member p q rs h.1 (ground arith)
]

-- What it is to be the least valid port.
pub record IsLeastPort (ports : List ℤ) (p : ℤ) : Type 0 where
  pub valid : is_positive p ≡ true
  pub exposed : has_int p ports ≡ true
  pub least : (q : ℤ) → has_int q ports ≡ true → is_positive q ≡ true → le_int p q ≡ true

int_eq_refl : (p : ℤ) → int_eq p p ≡ true
int_eq_refl (pos n) = ground arith
int_eq_refl (negsuc n) = ground arith

first_positive_sound :
    (ports : List ℤ) (p : ℤ)
    → Ascending le_int ports
    → first_positive ports ≡ some p
    → IsLeastPort ports p
unfolding first_positive has_int
first_positive_sound [] p a h = cc
first_positive_sound (q ∷ qs) p a h = elim (Bool-cases (is_positive q)) [
  | inl valid ↦
      let same : q ≡ p = ground arith in
      subst (IsLeastPort (q ∷ qs)) same (record {
        valid = valid;
        exposed = ground (arith, int_eq_refl q);
        least = λ r k v. elim (Bool-cases (int_eq q r)) [
          | inl e ↦ subst (λ (x : ℤ). le_int q x ≡ true) (int_eq_iff q r e) (le_int_refl q)
          | inr e ↦ below_member q r qs a.0 (ground arith)
        ];
      })
  | inr invalid ↦
      let ih = first_positive_sound qs p a.1 (ground arith) in
      record {
        valid = ih.valid;
        exposed = ground (arith, ih.exposed);
        least = λ r k v. elim (Bool-cases (int_eq q r)) [
          | inl e ↦ cc (int_eq_iff q r e, invalid, v)
          | inr e ↦ ih.least r (ground arith) v
        ];
      }
]

first_positive-none :
    (ports : List ℤ) (q : ℤ)
    → first_positive ports ≡ none
    → has_int q ports ≡ true
    → is_positive q ≡ false
unfolding first_positive has_int
first_positive-none [] q h k = cc
first_positive-none (r ∷ rs) q h k = elim (Bool-cases (int_eq r q)) [
  | inl e ↦ subst (λ (x : ℤ). is_positive x ≡ false) (int_eq_iff r q e) (ground arith)
  | inr e ↦ first_positive-none rs q (ground arith) (ground arith)
]

empty_ports :
    (q : ℤ) (ports : List ℤ)
    → has_int q ports ≡ true
    → is_empty ports ≡ true
    → is_positive q ≡ false
unfolding has_int
empty_ports q [] k h = cc
empty_ports q (p ∷ ps) k h = cc

module _ (snapshot : ContainerSnapshot) (intent : RouteIntent) where
  -- A port that ResolvePort returns is the positive one that the labels ask for, or, without one, the
  -- least positive exposed port.
  pub resolve_port_ok :
      (p : ℤ)
      → resolve_port snapshot intent ≡ ok p
      → ((is_positive intent.port ≡ true) × (p ≡ intent.port))
        ⊎ ((is_positive intent.port ≡ false) × IsLeastPort snapshot.exposed_ports p)
  unfolding resolve_port
  resolve_port_ok p h = elim (Bool-cases (is_positive intent.port)) [
    | inl asked ↦ inl (asked, ground arith)
    | inr free ↦ elim (Option-cases (first_positive (sort le_int snapshot.exposed_ports))) [
      | inl missing ↦ ground arith
      | inr (q, found) ↦
          let same : q ≡ p = ground arith in
          inr (
            free,
            subst (IsLeastPort snapshot.exposed_ports) same (
                unsorted q (
                  first_positive_sound (sort le_int snapshot.exposed_ports) q
                    (sort-Ascending le_int le_int_total le_int_trans snapshot.exposed_ports)
                    found)),
          )
    ]
  ]
    where
      unsorted :
          (q : ℤ)
          → IsLeastPort (sort le_int snapshot.exposed_ports) q
          → IsLeastPort snapshot.exposed_ports q
      unsorted q l = record {
        valid = l.valid;
        exposed = sym (has_int-sort q snapshot.exposed_ports) ∙ l.exposed;
        least = λ r k v. l.least r (has_int-sort r snapshot.exposed_ports ∙ k) v;
      }

  -- When ResolvePort fails, no exposed port is positive.
  pub resolve_port_err :
      (e : TargetError) (q : ℤ)
      → resolve_port snapshot intent ≡ err e
      → has_int q snapshot.exposed_ports ≡ true
      → is_positive q ≡ false
  unfolding resolve_port
  resolve_port_err e q h k =
      let sorted = has_int-sort q snapshot.exposed_ports ∙ k in
      elim (Option-cases (first_positive (sort le_int snapshot.exposed_ports))) [
        | inl missing ↦ first_positive-none (sort le_int snapshot.exposed_ports) q missing sorted
        | inr (p, found) ↦ empty_ports q snapshot.exposed_ports k (ground arith)
      ]
