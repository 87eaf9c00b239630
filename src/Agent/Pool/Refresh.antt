-- ===== src/Agent/Pool/Refresh.antt =====
-- Refreshing the agents.
use domux.Prelude.{
  ◌≡◌, refl, sym, ◌∙◌, true, false, ◌||◌, none, some, List, [], ◌∷◌, arith, inl, inr, if◌then◌else◌,
  Option-cases, All, is_some,
}
use domux.Prelude.Result.{Result}
use domux.Text.{Text, ◌==◌, le_text}
use domux.Text.Equality.{eq_iff}
use domux.Mapping.{Mapping, get, put, get-put, keys}
use domux.Core.Types.{Time}
use domux.Sort.{insert, sort}
use domux.Core.Names.{elem, Distinct}
use domux.Agent.Pool.{
  Client, Entry, Pool, Info, updated, set_node, refresh, refresh_each, refresh_all, sorted_keys,
  no_node, pick, list_nodes,
}

-- The entry of an agent after a refresh.
abbrev pub refreshed : (Client → Result Text Info) → Time → Entry → Entry
refreshed fetch now entry = record entry { node = updated now entry.node (fetch entry.client) }

-- A refresh keeps the names and the clients of the pool, and changes the node of the named agent only: to
-- an offline one with the error if nothing could be fetched, else to an online one with what was fetched.
pub get-refresh :
    (fetch : Client → Result Text Info) (now : Time) (name other : Text) (p : Pool)
    → get other (refresh fetch now name p).0 ≡ elim (get other p) [
      | none ↦ none
      | some entry ↦ some (if name == other then refreshed fetch now entry else entry)
    ]
unfolding refresh set_node
get-refresh fetch now name other p = elim (Option-cases (get name p)) [
  | inl absent ↦ ground (arith, eq_iff name other)
  | inr (entry, found) ↦
      ground (arith, eq_iff name other, get-put name other (refreshed fetch now entry) p)
]

keys-put :
    (k : Text) (v : Entry) (m : Mapping Entry)
    → is_some (get k m) ≡ true
    → keys (put k v m) ≡ keys m
unfolding keys put get
keys-put k v [] h = ground (arith, h)
keys-put k v ((j, w) ∷ m) h = ground (arith, h, eq_iff j k, keys-put k v m)

keys-refresh :
    (fetch : Client → Result Text Info) (now : Time) (name : Text) (p : Pool)
    → keys (refresh fetch now name p).0 ≡ keys p
unfolding refresh set_node
keys-refresh fetch now name p = elim (Option-cases (get name p)) [
  | inl absent ↦ ground arith
  | inr (entry, found) ↦ ground (arith, keys-put name (refreshed fetch now entry) p)
]

module _ (fetch : Client → Result Text Info) (now : Time) where
  keys-refresh_each :
      (names : List Text) (p : Pool) → keys (refresh_each fetch now names p).0 ≡ keys p
  unfolding refresh_each
  keys-refresh_each [] p = refl
  keys-refresh_each (name ∷ names) p =
      keys-refresh_each names (refresh fetch now name p).0 ∙ keys-refresh fetch now name p

  get-refresh_each :
      (other : Text) (names : List Text) (p : Pool)
      → elem other names ≡ false
      → get other (refresh_each fetch now names p).0 ≡ get other p
  unfolding refresh_each elem
  get-refresh_each other [] p h = refl
  get-refresh_each other (name ∷ names) p h = ground (
    arith,
    eq_iff name other,
    get-refresh_each other names (refresh fetch now name p).0,
    get-refresh fetch now name other p,
    Option-cases (get other p),
  )

  HasKeys : Pool → List Text → Type 0
  HasKeys p names = All (λ name. is_some (get name p) ≡ true) names

  HasKeys-refresh :
      (name : Text) (p : Pool) (names : List Text)
      → HasKeys p names
      → HasKeys (refresh fetch now name p).0 names
  unfolding HasKeys
  HasKeys-refresh name p [] h = tt
  HasKeys-refresh name p (other ∷ names) h = (
    ground (arith, h.0, get-refresh fetch now name other p, Option-cases (get other p)),
    HasKeys-refresh name p names h.1,
  )

  -- The node that a refresh of a known agent reports.
  refresh-node :
      (name : Text) (p : Pool)
      → (refresh fetch now name p).1
        ≡ elim (get name p) [ none ↦ no_node | some entry ↦ (refreshed fetch now entry).node ]
  unfolding refresh
  refresh-node name p = ground (arith, Option-cases (get name p))

  pick-refresh_each :
      (names : List Text) (p : Pool)
      → Distinct names
      → HasKeys p names
      → pick (λ (e : Entry). e.node) names (refresh_each fetch now names p).0
        ≡ (refresh_each fetch now names p).1
  unfolding refresh_each pick HasKeys
  pick-refresh_each [] p d h = refl
  pick-refresh_each (name ∷ names) p d h =
      let p1 = (refresh fetch now name p).0 in
      ground (
        arith,
        h.0,
        Option-cases (get name p),
        eq_iff name name,
        refresh-node name p,
        get-refresh fetch now name name p,
        get-refresh_each name names p1 d.0,
        pick-refresh_each names p1 d.1 (HasKeys-refresh name p names h.1),
      )

elem-insert : (k x : Text) (ys : List Text) → elem k (insert le_text x ys) ≡ (x == k || elem k ys)
unfolding elem insert
elem-insert k x [] = refl
elem-insert k x (y ∷ ys) = ground (arith, elem-insert k x ys)

Distinct-insert :
    (x : Text) (ys : List Text) → elem x ys ≡ false → Distinct ys → Distinct (insert le_text x ys)
unfolding elem insert
Distinct-insert x [] e d = (e, tt)
Distinct-insert x (y ∷ ys) e d =
    ground (arith, e, d.0, d.1, eq_iff x y, eq_iff y x, elem-insert y x ys, Distinct-insert x ys)

elem-sort : (k : Text) (xs : List Text) → elem k (sort le_text xs) ≡ elem k xs
unfolding elem sort
elem-sort k [] = refl
elem-sort k (x ∷ xs) = ground (arith, elem-insert k x (sort le_text xs), elem-sort k xs)

Distinct-sort : (xs : List Text) → Distinct xs → Distinct (sort le_text xs)
unfolding sort
Distinct-sort [] d = tt
Distinct-sort (x ∷ xs) d =
    Distinct-insert x (sort le_text xs) (elem-sort x xs ∙ d.0) (Distinct-sort xs d.1)

elem-keys : (k : Text) (m : Mapping Entry) → elem k (keys m) ≡ true → is_some (get k m) ≡ true
unfolding elem keys get
elem-keys k [] h = ground (arith, h)
elem-keys k ((j, w) ∷ m) h = ground (arith, h, elem-keys k m)

module _ (p : Pool) where
  All-keys :
      (xs : List Text)
      → ((k : Text) → elem k xs ≡ true → is_some (get k p) ≡ true)
      → All (λ name. is_some (get name p) ≡ true) xs
  unfolding elem
  All-keys [] h = tt
  All-keys (x ∷ xs) h =
      (h x (ground (arith, eq_iff x x)), All-keys xs (λ k e. h k (ground (arith, e))))

-- In a pool whose names are distinct, a refresh of all agents keeps the names, and reports the nodes
-- that the pool lists afterwards, in the same order.
pub refresh_all-list_nodes :
    (fetch : Client → Result Text Info) (now : Time) (p : Pool)
    → Distinct (keys p)
    → (keys (refresh_all fetch now p).0 ≡ keys p)
      × ((refresh_all fetch now p).1 ≡ list_nodes (refresh_all fetch now p).0)
unfolding refresh_all list_nodes sorted_keys HasKeys
refresh_all-list_nodes fetch now p d =
    let names = sort le_text (keys p) in
    let same = keys-refresh_each fetch now names p in
    let known : All (λ name. is_some (get name p) ≡ true) names =
      All-keys p names (λ k e. elem-keys k p (sym (elem-sort k (keys p)) ∙ e)) in
    (same, rw same (sym (pick-refresh_each fetch now names p (Distinct-sort (keys p) d) known)))
