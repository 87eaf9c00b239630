-- ===== src/Discovery/Target/Networks.antt =====
-- The networks on which a container is looked for.
use domux.Prelude.{
  ◌≡◌, ◌≢◌, refl, ◌∙◌, true, false, not, ◌||◌, ◌&&◌, none, some, List, [], ◌∷◌, ◌++◌, arith, All,
  inl, inr, Option-cases, Bool-cases, if◌then◌else◌, get_or,
}
use domux.Prelude.Result.{ok}
use domux.Text.{Text, codes, ◌==◌, trim_space, contains, le_text}
use domux.Text.Equality.{eq_iff}
use domux.Text.Trim.{trim_space-trim_space}
use domux.Mapping.{Mapping, get, keys}
use domux.Sort.{insert, sort}
use domux.Core.Types.{RuntimeSource, ContainerSnapshot}
use domux.Core.Names.{elem, Distinct}
use domux.Core.Names.Compact.{IsClean}
use domux.Discovery.Labels.{RouteIntent}
use domux.Discovery.Target.{
  add_name, add_network, add_all, network_candidates, first_address, resolve_host,
  compose_project_name,
}

-- Trimmed, non-empty and distinct names.
pub record IsNameList (names : List Text) : Type 0 where
  pub distinct : Distinct names
  pub clean : All IsClean names

elem-snoc : (x y : Text) (xs : List Text) → elem x (xs ++ y ∷ []) ≡ (elem x xs || y == x)
unfolding elem
elem-snoc x y [] = ground arith
elem-snoc x y (z ∷ zs) = ground (arith, elem-snoc x y zs)

Distinct-snoc :
    (y : Text) (xs : List Text) → Distinct xs → elem y xs ≡ false → Distinct (xs ++ y ∷ [])
unfolding elem
Distinct-snoc y [] d h = (refl, tt)
Distinct-snoc y (x ∷ xs) d h =
    ground (arith, elem-snoc x y xs, eq_iff y x, eq_iff x y, Distinct-snoc y xs d.1)

IsClean-snoc : (y : Text) (xs : List Text) → All IsClean xs → IsClean y → All IsClean (xs ++ y ∷ [])
IsClean-snoc y [] h c = (c, tt)
IsClean-snoc y (x ∷ xs) h c = (h.0, IsClean-snoc y xs h.1 c)

add_name-IsNameList :
    (raw : Text) (out : List Text) → IsNameList out → IsNameList (add_name raw out)
unfolding add_name
add_name-IsNameList raw out h =
    let name = trim_space raw in
    elim (Bool-cases (name == [])) [
      | inl blank ↦ rw blank h
      | inr named ↦ elim (Bool-cases (elem name out)) [
        | inl old ↦ rw (named, old) h
        | inr new ↦
            rw (named, new)
              (record {
                distinct = Distinct-snoc name out h.distinct new;
                clean =
                    IsClean-snoc name out h.clean
                      (trim_space-trim_space raw, λ e. cc (named, (eq_iff name []).1 e));
              })
      ]
    ]

-- what was there stays, and the name is there
elem-add_name :
    (x raw : Text) (out : List Text)
    → elem x (add_name raw out)
      ≡ (elem x out || (not (trim_space raw == []) && trim_space raw == x))
unfolding add_name
elem-add_name x raw out =
    ground (
      arith,
      elem-snoc x (trim_space raw) out,
      eq_iff (trim_space raw) x,
      eq_iff (trim_space raw) [],
    )

add_network-IsNameList :
    (project name : Text) (out : List Text)
    → IsNameList out
    → IsNameList (add_network project name out)
unfolding add_network
add_network-IsNameList project name out h =
    let once = add_name-IsNameList name out h in
    elim (Bool-cases (not (project == []) && not (contains (codes "_") name))) [
      | inl both ↦ rw both (add_name-IsNameList (project ++ b'_' ∷ name) (add_name name out) once)
      | inr one ↦ rw one once
    ]

add_all-IsNameList : (names out : List Text) → IsNameList out → IsNameList (add_all names out)
unfolding add_all
add_all-IsNameList [] out h = h
add_all-IsNameList (name ∷ names) out h =
    add_all-IsNameList names (add_name name out) (add_name-IsNameList name out h)

elem-add_all_old :
    (x : Text) (names out : List Text) → elem x out ≡ true → elem x (add_all names out) ≡ true
unfolding add_all
elem-add_all_old x [] out h = h
elem-add_all_old x (name ∷ names) out h =
    elem-add_all_old x names (add_name name out) (ground (arith, elem-add_name x name out))

elem-add_all :
    (x : Text) (names out : List Text)
    → IsClean x
    → elem x names ≡ true
    → elem x (add_all names out) ≡ true
unfolding add_all elem
elem-add_all x [] out c h = cc
elem-add_all x (name ∷ names) out c h = elim (Bool-cases (name == x)) [
  | inr other ↦ elem-add_all x names (add_name name out) c (ground arith)
  | inl same ↦ elem-add_all_old x names (add_name name out) (
      ground (
        arith,
        elem-add_name x name out,
        eq_iff name x,
        eq_iff (trim_space name) [],
        eq_iff (trim_space name) x,
        c.0,
      ))
]

elem-sort : (x : Text) (xs : List Text) → elem x (sort le_text xs) ≡ elem x xs
unfolding elem sort
elem-sort x [] = refl
elem-sort x (y ∷ ys) = ground (arith, elem-insert x y (sort le_text ys), elem-sort x ys)
  where
    elem-insert :
        (a b : Text) (bs : List Text) → elem a (insert le_text b bs) ≡ (b == a || elem a bs)
    elem-insert a b [] = refl
    elem-insert a b (c ∷ cs) = ground (arith, elem-insert a b cs)

elem-keys :
    {V : Type 0} (x : Text) (m : Mapping V) (v : V) → get x m ≡ some v → elem x (keys m) ≡ true
unfolding elem keys get
elem-keys x [] v h = cc
elem-keys x ((j, w) ∷ m) v h = ground (arith, elem-keys x m v)

module _ (source : RuntimeSource) (snapshot : ContainerSnapshot) (intent : RouteIntent) where
  -- The candidates are trimmed, not empty, and none is tried twice.
  pub network_candidates-IsNameList : IsNameList (network_candidates source snapshot intent)
  unfolding network_candidates
  network_candidates-IsNameList = add_all-IsNameList (sort le_text (keys snapshot.networks)) _ named
    where
      project : Text
      project = compose_project_name snapshot.labels

      wanted : IsNameList (add_network project intent.network [])
      wanted =
          add_network-IsNameList project intent.network [] (record { distinct = tt; clean = tt })

      named : IsNameList (
          if not (source.network == intent.network)
          then add_network project source.network (add_network project intent.network [])
          else add_network project intent.network [])
      named = elim (Bool-cases (not (source.network == intent.network))) [
        | inl other ↦ rw other (
            add_network-IsNameList project source.network (add_network project intent.network [])
              wanted)
        | inr same ↦ rw same wanted
      ]

  candidate :
      (name ip : Text)
      → get name snapshot.networks ≡ some ip
      → IsClean name
      → elem name (network_candidates source snapshot intent) ≡ true
  unfolding network_candidates
  candidate name ip found clean =
      elem-add_all name (sort le_text (keys snapshot.networks)) _ clean
        (elem-sort name (keys snapshot.networks) ∙ elem-keys name snapshot.networks ip found)

first_address-none :
    (networks : Mapping Text) (names : List Text) (x : Text)
    → first_address networks names ≡ none
    → elem x names ≡ true
    → trim_space (get_or (get x networks) []) ≡ []
unfolding first_address elem
first_address-none networks [] x h k = cc
first_address-none networks (n ∷ ns) x h k = ground (
  arith,
  eq_iff n x,
  eq_iff (trim_space (get_or (get n networks) [])) [],
  first_address-none networks ns x,
)

first_address-some :
    (networks : Mapping Text) (names : List Text) (ip x : Text)
    → first_address networks names ≡ some (ip, x)
    → (ip ≡ trim_space (get_or (get x networks) [])) × (ip ≢ [])
unfolding first_address
first_address-some networks [] ip x h = cc
first_address-some networks (n ∷ ns) ip x h = ground (
  arith,
  eq_iff (trim_space (get_or (get n networks) [])) [],
  first_address-some networks ns ip x,
)

-- A container that has an address on some network, under a trimmed name, is always given a host: the
-- address, which is not empty, that it has on the network that is named with it.
pub resolve_host_found :
    (source : RuntimeSource) (snapshot : ContainerSnapshot) (intent : RouteIntent) (name ip : Text)
    → get name snapshot.networks ≡ some ip
    → trim_space ip ≢ []
    → IsClean name
    → (host network : Text) × (resolve_host source snapshot intent ≡ ok (host, network))
      × (host ≡ trim_space (get_or (get network snapshot.networks) []))
      × (host ≢ [])
unfolding resolve_host
resolve_host_found source snapshot intent name ip found filled clean =
    let names = network_candidates source snapshot intent in
    elim (Option-cases (first_address snapshot.networks names)) [
      | inl missing ↦
          let empty =
            first_address-none snapshot.networks names name missing
              (candidate source snapshot intent name ip found clean) in
          absurd (filled (ground arith))
      | inr ((host, network), hit) ↦
          let (exact, named) = first_address-some snapshot.networks names host network hit in
          (host, network, rw (hit, resolve_host), exact, named)
    ]
