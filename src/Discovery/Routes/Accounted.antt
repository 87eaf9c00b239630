-- ===== src/Discovery/Routes/Accounted.antt =====
-- Which containers the discovery answers for.
use domux.Prelude.{
  ◌≡◌, ◌⊎◌, refl, sym, subst, Bool, if◌then◌else◌, true, List, [], ◌∷◌, arith, All, All-map, inl,
  inr, Option-cases, Bool-cases,
}
use domux.Prelude.Result.{ok, Result-cases}
use domux.Text.{Text, codes, ◌==◌}
use domux.Mapping.{get}
use domux.Sort.{insert, sort, by_key}
use domux.Core.Types.{ManagedZone, RuntimeSource, ContainerSnapshot, DiscoveredRoute}
use domux.Core.Runtime.{Env}
use domux.Core.Zone.{default_managed_zone_name}
use domux.Discovery.Labels.{RouteIntent, parse_labels, default_label_prefix}
use domux.Discovery.Target.{resolve_target}
use domux.Discovery.Routes.Hosts.{All-sort}
use domux.Discovery.Routes.{
  Finding, nothing, failure, route, RouteError, bad_labels, unknown_domain, no_target, build_route,
  zones_by_domain, find_in_zone, find_intended, find, add_finding, find_all, discover_routes,
}

module _ {ℓ} {A : Type ℓ} (P : A → Type 0) where
  -- some element satisfies P
  abbrev pub Any : List A → Type 0
  Any [] = ⊥
  Any (x ∷ xs) = P x ⊎ Any xs

-- The container runs and its labels, which are understood, ask to be managed.
abbrev pub IsAsked : ContainerSnapshot → Type 0
IsAsked c =
    (c.running ≡ true)
    × ((i : RouteIntent) × ((parse_labels c.labels default_label_prefix ≡ ok i)
          × (i.managed ≡ true)))

-- the container that an error names
abbrev pub named_in : RouteError → Text
named_in (bad_labels name e) = name
named_in (unknown_domain name domain) = name
named_in (no_target name e) = name

-- The route leads to a container that runs and asks for it.
abbrev pub IsWanted : List ContainerSnapshot → DiscoveredRoute → Type 0
IsWanted cs r = Any (λ c. IsAsked c × (r.container.id ≡ c.id)) cs

-- The error is about a container that runs.
abbrev pub IsReported : List ContainerSnapshot → RouteError → Type 0
IsReported cs e = Any (λ (c : ContainerSnapshot). (c.running ≡ true) × (named_in e ≡ c.name)) cs

-- The container asks for nothing, or it has a route, or an error names it.
abbrev pub IsAnswered : List DiscoveredRoute → List RouteError → ContainerSnapshot → Type 0
IsAnswered routes errs c =
    (¬ IsAsked c)
    ⊎ (Any (λ (r : DiscoveredRoute). r.container.id ≡ c.id) routes
        ⊎ Any (λ (e : RouteError). named_in e ≡ c.name) errs)

abbrev pub Accounts : List ContainerSnapshot → List DiscoveredRoute → List RouteError → Type 0
Accounts cs routes errs =
    All (IsWanted cs) routes × (All (IsReported cs) errs × All (IsAnswered routes errs) cs)

IsAnswered-more :
    (routes more_routes : List DiscoveredRoute) (errs more_errs : List RouteError)
    → ((c : ContainerSnapshot)
        → Any (λ (r : DiscoveredRoute). r.container.id ≡ c.id) routes
        → Any (λ (r : DiscoveredRoute). r.container.id ≡ c.id) more_routes)
    → ((c : ContainerSnapshot)
        → Any (λ (e : RouteError). named_in e ≡ c.name) errs
        → Any (λ (e : RouteError). named_in e ≡ c.name) more_errs)
    → (c : ContainerSnapshot) → IsAnswered routes errs c
    → IsAnswered more_routes more_errs c
IsAnswered-more routes more_routes errs more_errs f g c (inl idle) = inl idle
IsAnswered-more routes more_routes errs more_errs f g c (inr (inl r)) = inr (inl (f c r))
IsAnswered-more routes more_routes errs more_errs f g c (inr (inr e)) = inr (inr (g c e))

module _ (env : Env) (exists : Text → Bool) (http_url : Text → Text) (source : RuntimeSource)
    (zones : List ManagedZone) where
  -- What a container comes to.
  data Comes (c : ContainerSnapshot) : Finding → Type 0 where
    idle : ¬ IsAsked c → Comes c nothing
    reported : (e : RouteError) → c.running ≡ true → named_in e ≡ c.name → Comes c (failure e)
    wanted : (r : DiscoveredRoute) → IsAsked c → r.container.id ≡ c.id → Comes c (route r)

  find_in_zone-Comes :
      (z : ManagedZone) (c : ContainerSnapshot) (i : RouteIntent)
      → IsAsked c
      → Comes c (find_in_zone env exists http_url source zones z c i)
  unfolding find_in_zone build_route
  find_in_zone-Comes z c i asked =
      elim (Result-cases (resolve_target env exists http_url source c i)) [
        | inr (e, bad) ↦
            let same : find_in_zone env exists http_url source zones z c i
                ≡ failure (no_target c.name e) =
              ground (arith, bad) in
            subst (Comes c) (sym same) (reported (no_target c.name e) asked.0 refl)
        | inl ((network, url), good) ↦
            let r = build_route z c i url network (codes "server") in
            let same : find_in_zone env exists http_url source zones z c i ≡ route r =
              ground (arith, good) in
            subst (Comes c) (sym same) (wanted r asked refl)
      ]

  find_intended-Comes :
      (c : ContainerSnapshot) (i : RouteIntent)
      → c.running ≡ true
      → parse_labels c.labels default_label_prefix ≡ ok i
      → Comes c (find_intended env exists http_url source zones c i)
  unfolding find_intended
  find_intended-Comes c i runs parsed =
      let name = if i.domain == [] then default_managed_zone_name zones else i.domain in
      let found_here = find_intended env exists http_url source zones c i in
      elim (Bool-cases i.managed) [
        | inr free ↦
            let same : found_here ≡ nothing = ground (arith, free) in
            subst (Comes c) (sym same) (idle (λ asked. cc (free, parsed, asked.1.1.0, asked.1.1.1)))
        | inl managed ↦ elim (Option-cases (get name (zones_by_domain zones []))) [
          | inl unknown ↦
              let same : found_here ≡ failure (unknown_domain c.name name) =
                ground (arith, managed, unknown) in
              subst (Comes c) (sym same) (reported (unknown_domain c.name name) runs refl)
          | inr (z, found) ↦
              let same : found_here ≡ find_in_zone env exists http_url source zones z c i =
                ground (arith, managed, found) in
              subst (Comes c) (sym same) (find_in_zone-Comes z c i (runs, (i, (parsed, managed))))
        ]
      ]

  find-Comes : (c : ContainerSnapshot) → Comes c (find env exists http_url source zones c)
  unfolding find
  find-Comes c =
      let found_here = find env exists http_url source zones c in
      elim (Bool-cases c.running) [
        | inr stopped ↦
            let same : found_here ≡ nothing = ground (arith, stopped) in
            subst (Comes c) (sym same) (idle (λ asked. cc (stopped, asked.0)))
        | inl runs ↦ elim (Result-cases (parse_labels c.labels default_label_prefix)) [
          | inr (e, bad) ↦
              let same : found_here ≡ failure (bad_labels c.name e) = ground (arith, runs, bad) in
              subst (Comes c) (sym same) (reported (bad_labels c.name e) runs refl)
          | inl (i, parsed) ↦
              let same : found_here ≡ find_intended env exists http_url source zones c i =
                ground (arith, runs, parsed) in
              subst (Comes c) (sym same) (find_intended-Comes c i runs parsed)
        ]
      ]

  abbrev AccountsPair : List ContainerSnapshot → List DiscoveredRoute × List RouteError → Type 0
  AccountsPair cs g = Accounts cs g.0 g.1

  add-Accounts :
      (c : ContainerSnapshot) (cs : List ContainerSnapshot) (f : Finding)
      (g : List DiscoveredRoute × List RouteError)
      → Comes c f
      → AccountsPair cs g
      → AccountsPair (c ∷ cs) (add_finding env exists http_url source zones f g)
  unfolding add_finding
  add-Accounts c cs nothing (routes, errs) (idle h) (rs, (es, ans)) =
      (All-map (λ r h. inr h) routes rs, (All-map (λ e h. inr h) errs es, (inl h, ans)))
  add-Accounts c cs (failure e) (routes, errs) (reported _ runs named) (rs, (es, ans)) = (
    All-map (λ r h. inr h) routes rs,
    (
      (inl (runs, named), All-map (λ e h. inr h) errs es),
      (
        inr (inr (inl named)),
        All-map (IsAnswered-more routes routes errs (e ∷ errs) (λ c h. h) (λ c h. inr h)) cs ans,
      ),
    ),
  )
  add-Accounts c cs (route r) (routes, errs) (wanted _ asked same) (rs, (es, ans)) = (
    (inl (asked, same), All-map (λ r h. inr h) routes rs),
    (
      All-map (λ e h. inr h) errs es,
      (
        inr (inl (inl same)),
        All-map (IsAnswered-more routes (r ∷ routes) errs errs (λ c h. inr h) (λ c h. h)) cs ans,
      ),
    ),
  )

  find_all-Accounts :
      (cs : List ContainerSnapshot) → AccountsPair cs (find_all env exists http_url source zones cs)
  unfolding find_all
  find_all-Accounts [] = (tt, (tt, tt))
  find_all-Accounts (c ∷ cs) =
      add-Accounts c cs (find env exists http_url source zones c)
        (find_all env exists http_url source zones cs) (find-Comes c) (find_all-Accounts cs)

module _ (P : DiscoveredRoute → Type 0) (le : DiscoveredRoute → DiscoveredRoute → Bool) where
  Any-insert :
      (r : DiscoveredRoute) (rs : List DiscoveredRoute) → P r ⊎ Any P rs → Any P (insert le r rs)
  unfolding insert
  Any-insert r [] h = h
  Any-insert r (q ∷ rs) h = elim (Bool-cases (le r q)) [
    | inl first ↦ rw first h
    | inr later ↦ rw later (elim h [
      | inl here ↦ inr (Any-insert r rs (inl here))
      | inr (inl head) ↦ inl head
      | inr (inr rest) ↦ inr (Any-insert r rs (inr rest))
    ])
  ]

  Any-sort : (rs : List DiscoveredRoute) → Any P rs → Any P (sort le rs)
  unfolding sort
  Any-sort [] h = absurd h
  Any-sort (r ∷ rs) (inl here) = Any-insert r (sort le rs) (inl here)
  Any-sort (r ∷ rs) (inr rest) = Any-insert r (sort le rs) (inr (Any-sort rs rest))

-- Every discovered route leads to a container that runs and whose labels, which are understood, ask to be
-- managed; every error names a container that runs; and every container that runs and so asks has a
-- route, or an error names it.
pub discover_routes-Accounts :
    (env : Env) (exists : Text → Bool) (http_url : Text → Text) (source : RuntimeSource)
    (zones : List ManagedZone) (cs : List ContainerSnapshot)
    → Accounts cs
        (discover_routes env exists http_url source zones cs).0
        (discover_routes env exists http_url source zones cs).1
unfolding discover_routes
discover_routes-Accounts env exists http_url source zones cs =
    let (routes, errs) = find_all env exists http_url source zones cs in
    let (rs, (es, ans)) = find_all-Accounts env exists http_url source zones cs in
    let le = by_key (λ (r : DiscoveredRoute). r.host) in
    (
      All-sort (IsWanted cs) le routes rs,
      (
        es,
        All-map
            (IsAnswered-more routes (sort le routes) errs errs
              (λ c. Any-sort (λ (r : DiscoveredRoute). r.container.id ≡ c.id) le routes) (λ c h. h))
            cs ans,
      ),
    )
