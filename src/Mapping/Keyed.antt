-- ===== src/Mapping/Keyed.antt =====
-- Maps whose keys are computed from their values, each key once.
use domux.Prelude.{◌≡◌, refl, ◌||◌, ◌&&◌, not, List, [], ◌∷◌, arith, All, Bool-cases, inl, inr}
use domux.Text.{Text, ◌==◌}
use domux.Text.Equality.{eq_iff}
use domux.Core.Names.{elem, Distinct}
use domux.Mapping.{Mapping, put, delete, keys, keyed_onto}

pub record IsKeyed {ℓ} {V : Type ℓ} (id : V → Text) (m : Mapping V) : Type ℓ where
  pub own : All (λ (e : Text × V). id e.1 ≡ e.0) m
  pub distinct : Distinct (keys m)

module _ {ℓ} {V : Type ℓ} where
  elem-keys-put :
      (j k : Text) (v : V) (m : Mapping V) → elem j (keys (put k v m)) ≡ (k == j || elem j (keys m))
  unfolding put keys elem
  elem-keys-put j k v [] = ground arith
  elem-keys-put j k v ((i, w) ∷ m) =
      ground (arith, eq_iff i k, eq_iff k j, eq_iff i j, elem-keys-put j k v m)

  put-Distinct :
      (k : Text) (v : V) (m : Mapping V) → Distinct (keys m) → Distinct (keys (put k v m))
  unfolding put keys elem
  put-Distinct k v [] h = (refl, tt)
  put-Distinct k v ((i, w) ∷ m) h =
      ground (arith, eq_iff i k, eq_iff k i, elem-keys-put i k v m, put-Distinct k v m h.1)

  elem-keys-delete :
      (j k : Text) (m : Mapping V) → elem j (keys (delete k m)) ≡ (elem j (keys m) && not (k == j))
  unfolding delete keys elem
  elem-keys-delete j k [] = refl
  elem-keys-delete j k ((i, w) ∷ m) =
      ground (arith, eq_iff i k, eq_iff k j, eq_iff i j, elem-keys-delete j k m)

  delete-Distinct : (k : Text) (m : Mapping V) → Distinct (keys m) → Distinct (keys (delete k m))
  unfolding delete keys
  delete-Distinct k [] h = tt
  delete-Distinct k ((i, w) ∷ m) h = ground (arith, elem-keys-delete i k m, delete-Distinct k m h.1)

module _ {ℓ} {V : Type ℓ} (id : V → Text) where
  put-own :
      (k : Text) (v : V) (m : Mapping V)
      → id v ≡ k
      → All (λ (e : Text × V). id e.1 ≡ e.0) m
      → All (λ (e : Text × V). id e.1 ≡ e.0) (put k v m)
  unfolding put
  put-own k v [] e h = (e, tt)
  put-own k v ((i, w) ∷ m) e h = elim (Bool-cases (i == k)) [
    | inl same ↦ rw same (e, h.1)
    | inr other ↦ rw other (h.0, put-own k v m e h.1)
  ]

  delete-own :
      (k : Text) (m : Mapping V)
      → All (λ (e : Text × V). id e.1 ≡ e.0) m
      → All (λ (e : Text × V). id e.1 ≡ e.0) (delete k m)
  unfolding delete
  delete-own k [] h = tt
  delete-own k ((i, w) ∷ m) h = elim (Bool-cases (i == k)) [
    | inl same ↦ rw same (delete-own k m h.1)
    | inr other ↦ rw other (h.0, delete-own k m h.1)
  ]

  pub IsKeyed-nil : IsKeyed id []
  unfolding keys
  IsKeyed-nil = record { own = tt; distinct = tt }

  pub put-IsKeyed : (v : V) {m : Mapping V} → IsKeyed id m → IsKeyed id (put (id v) v m)
  put-IsKeyed v {m} h = record {
    own = put-own (id v) v m refl h.own;
    distinct = put-Distinct (id v) v m h.distinct;
  }

  pub delete-IsKeyed : (k : Text) {m : Mapping V} → IsKeyed id m → IsKeyed id (delete k m)
  delete-IsKeyed k {m} h = record {
    own = delete-own k m h.own;
    distinct = delete-Distinct k m h.distinct;
  }

  pub keyed_onto-IsKeyed :
      (vs : List V) (m : Mapping V) → IsKeyed id m → IsKeyed id (keyed_onto id vs m)
  unfolding keyed_onto
  keyed_onto-IsKeyed [] m h = h
  keyed_onto-IsKeyed (v ∷ vs) m h = keyed_onto-IsKeyed vs (put (id v) v m) (put-IsKeyed v h)
