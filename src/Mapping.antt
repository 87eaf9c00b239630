-- ===== src/Mapping.antt =====
-- Go's maps with string keys, as association lists in the map's iteration order.
pub mod Keyed
use domux.Prelude.{
  ℕ, ◌≡◌, ◌≢◌, refl, Bool, true, false, Option, none, some, List, [], ◌∷◌, ◌++◌, arith, inl, inr,
  Bool-cases, if◌then◌else◌, is_some, ap, ◌∙◌,
}
use domux.Text.{Text, ◌==◌}
use domux.Text.Equality.{eq_iff}

abbrev pub Mapping {ℓ} : Type ℓ → Type ℓ
Mapping V = List (Text × V)

module _ {ℓ} {V : Type ℓ} where
  -- v, ok := m[k]
  unfoldable pub get : Text → Mapping V → Option V
  get k [] = none
  get k ((j, v) ∷ m) = if j == k then some v else get k m

  -- m[k] = v
  unfoldable pub put : Text → V → Mapping V → Mapping V
  put k v [] = (k, v) ∷ []
  put k v ((j, w) ∷ m) = if j == k then (k, v) ∷ m else (j, w) ∷ put k v m

  -- delete(m, k)
  unfoldable pub delete : Text → Mapping V → Mapping V
  delete k [] = []
  delete k ((j, w) ∷ m) = let rest = delete k m in if j == k then rest else (j, w) ∷ rest

  unfoldable pub keys : Mapping V → List Text
  keys [] = []
  keys ((j, w) ∷ m) = j ∷ keys m

  unfoldable pub values : Mapping V → List V
  values [] = []
  values ((j, w) ∷ m) = w ∷ values m

  -- `ground` is given `eq_iff` at each pair of keys that is compared.
  pub get-put :
      (k j : Text) (v : V) (m : Mapping V)
      → get j (put k v m) ≡ (if k == j then some v else get j m)
  unfolding get put
  get-put k j v [] = refl
  get-put k j v ((i, w) ∷ m) = ground (arith, eq_iff k j, eq_iff i k, eq_iff i j, get-put k j v m)

  pub get-delete :
      (k j : Text) (m : Mapping V) → get j (delete k m) ≡ (if k == j then none else get j m)
  unfolding get delete
  get-delete k j [] = ground arith
  get-delete k j ((i, w) ∷ m) = ground (arith, eq_iff k j, eq_iff i k, eq_iff i j, get-delete k j m)

-- for _, value := range values { out[id(value)] = value }
unfoldable pub keyed_onto {ℓ} : {V : Type ℓ} → (V → Text) → List V → Mapping V → Mapping V
keyed_onto id [] out = out
keyed_onto id (v ∷ vs) out = keyed_onto id vs (put (id v) v out)

-- The last value with the key, which is the one that is kept.
unfoldable pub last_with {ℓ} : {V : Type ℓ} → (V → Text) → Text → List V → Option V → Option V
last_with id k [] found = found
last_with id k (v ∷ vs) found = last_with id k vs (if id v == k then some v else found)

pub get-keyed_onto {ℓ} :
    {V : Type ℓ} (id : V → Text) (k : Text) (vs : List V) (out : Mapping V)
    → get k (keyed_onto id vs out) ≡ last_with id k vs (get k out)
unfolding keyed_onto last_with
get-keyed_onto id k [] out = refl
get-keyed_onto id k (v ∷ vs) out =
    get-keyed_onto id k vs (put (id v) v out) ∙ ap (last_with id k vs) (get-put (id v) k v out)
