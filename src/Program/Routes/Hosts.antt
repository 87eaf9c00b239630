-- ===== src/Program/Routes/Hosts.antt =====
-- Which route the proxy's table holds at the host of a custom app.
use domux.Prelude.{
  ℕ, ◌≡◌, ◌⊎◌, refl, ◌∙◌, Bool, true, false, ◌||◌, some, List, [], ◌∷◌, ◌++◌, arith, inl, inr, map,
  Bool-cases, All, All-append,
}
use domux.Text.{Text, ◌==◌, to_lower}
use domux.Text.Equality.{eq_iff}
use domux.Mapping.{Mapping, get, put, get-put, keyed_onto}
use domux.Sort.{insert, sort, by_key}
use domux.Core.Types.{DiscoveredRoute, origin_custom_app}
use domux.Core.Names.{elem}
use domux.Proxy.Http.{swap, lookup, lookup_key}
use domux.Program.Routes.{rename_conflicting_route, blocked_hosts, settle, apply_custom_routes}

module _ {ℓ} {V : Type ℓ} (id : V → Text) where
  -- each value of the list with the key is `v`
  abbrev pub Sole : Text → V → List V → Type ℓ
  Sole k v = All (λ x. ((id x == k) ≡ false) ⊎ (x ≡ v))

  get-keyed_onto :
      (k : Text) (v : V) (xs : List V) (m : Mapping V)
      → Sole k v xs
      → (get k m ≡ some v) ⊎ (elem k (map id xs) ≡ true)
      → get k (keyed_onto id xs m) ≡ some v
  unfolding keyed_onto elem
  get-keyed_onto k v [] m s (inl found) = found
  get-keyed_onto k v [] m s (inr absurd_case) = absurd (cc absurd_case)
  get-keyed_onto k v (x ∷ xs) m s h =
      get-keyed_onto k v xs (put (id x) x m) s.1 (ground (arith, s.0, h, get-put (id x) k x m))

module _ {A : Type 0} (P : A → Type 0) (le : A → A → Bool) where
  All-insert : (x : A) (ys : List A) → P x → All P ys → All P (insert le x ys)
  unfolding insert
  All-insert x [] p h = (p, tt)
  All-insert x (y ∷ ys) p h = elim (Bool-cases (le x y)) [
    | inl below ↦ rw below (p, h)
    | inr above ↦ rw above (h.0, All-insert x ys p h.1)
  ]

  pub All-sort : (xs : List A) → All P xs → All P (sort le xs)
  unfolding sort
  All-sort [] h = tt
  All-sort (x ∷ xs) h = All-insert x (sort le xs) h.0 (All-sort xs h.1)

module _ {A : Type 0} (id : A → Text) (le : A → A → Bool) (k : Text) where
  elem-insert :
      (x : A) (ys : List A) → elem k (map id (insert le x ys)) ≡ (id x == k || elem k (map id ys))
  unfolding insert elem
  elem-insert x [] = refl
  elem-insert x (y ∷ ys) = ground (arith, elem-insert x ys)

  pub elem-sort : (xs : List A) → elem k (map id (sort le xs)) ≡ elem k (map id xs)
  unfolding sort elem
  elem-sort [] = refl
  elem-sort (x ∷ xs) = ground (arith, elem-insert x (sort le xs), elem-sort xs)

elem-map-append :
    {A : Type 0} (id : A → Text) (k : Text) (xs ys : List A)
    → elem k (map id (xs ++ ys)) ≡ (elem k (map id xs) || elem k (map id ys))
unfolding elem
elem-map-append id k [] ys = refl
elem-map-append id k (x ∷ xs) ys = ground (arith, elem-map-append id k xs ys)

or_right : (a b : Bool) → b ≡ true → (a || b) ≡ true
or_right a b h = ground (arith, h)

module _ (unicode_lower : ℕ → ℕ) where
  abbrev low : DiscoveredRoute → Text
  low r = to_lower unicode_lower r.host

  settle-Sole :
      (blocked : List Text) (c : DiscoveredRoute) (routes : List DiscoveredRoute)
      → elem (low c) blocked ≡ true
      → All (λ r. (low (rename_conflicting_route unicode_lower r) == low c) ≡ false) routes
      → Sole low (low c) c (settle unicode_lower blocked routes)
  unfolding settle
  settle-Sole blocked c [] b h = tt
  settle-Sole blocked c (r ∷ routes) b h =
      let rest = settle-Sole blocked c routes b h.1 in
      elim (Bool-cases (r.origin == origin_custom_app)) [
        | inl custom ↦ rw custom rest
        | inr other ↦ elim (Bool-cases (elem (low r) blocked)) [
          | inl taken ↦ rw (other, taken) (inl h.0, rest)
          | inr free ↦
              rw (other, free) (inl (ground (arith, b, free, eq_iff (low r) (low c))), rest)
        ]
      ]

  -- A request for the host of a custom app reaches the route of that app, whatever routes are
  -- discovered beside it, where no other custom app has this host and renaming gives it to no
  -- discovered route.
  pub lookup-apply_custom_routes :
      (routes custom : List DiscoveredRoute) (c : DiscoveredRoute) (host : Text)
      → lookup_key unicode_lower host ≡ low c
      → elem (low c) (blocked_hosts unicode_lower custom) ≡ true
      → Sole low (low c) c custom
      → All (λ r. (low (rename_conflicting_route unicode_lower r) == low c) ≡ false) routes
      → lookup unicode_lower host
          (swap unicode_lower (apply_custom_routes unicode_lower routes custom))
        ≡ some c
  unfolding lookup swap apply_custom_routes blocked_hosts
  lookup-apply_custom_routes routes custom c host key there sole apart =
      let settled = settle unicode_lower (blocked_hosts unicode_lower custom) routes in
      let all =
        All-append (λ r. ((low r == low c) ≡ false) ⊎ (r ≡ c)) settled custom
          (settle-Sole _ c routes there apart) sole in
      let le = by_key (λ (r : DiscoveredRoute). r.host) in
      let found =
        elem-sort low le (low c) (settled ++ custom) ∙ elem-map-append low (low c) settled custom in
      rw key (
        get-keyed_onto low (low c) c (sort le (settled ++ custom)) []
          (All-sort _ le (settled ++ custom) all) (inr (found ∙ or_right _ _ there)))
