-- ===== src/Discovery/Routes/Hosts.antt =====
-- The routes that are discovered.

use domux.Prelude.{
  ◌≡◌, refl, Bool, true, some, List, [], ◌∷◌, arith, All, inl, inr, Option-cases, Bool-cases,
  if◌then◌else◌, subst,
}
use domux.Prelude.Result.{Result-cases}
use domux.Text.{Text, codes, ◌==◌}
use domux.Mapping.{Mapping, get, put, get-put}
use domux.Sort.{insert, sort, Ascending, by_key, by_key_total, by_key_trans, sort-Ascending}
use domux.Core.Types.{ManagedZone, RuntimeSource, ContainerSnapshot, DiscoveredRoute}
use domux.Core.Runtime.{Env}
use domux.Core.Names.{domain_within_managed_domain}
use domux.Core.Zone.{default_managed_zone_name}
use domux.Core.Zone.Hosts.{IsPlainDomain, hostname-domain_within_managed_domain}
use domux.Discovery.Labels.{RouteIntent, parse_labels, default_label_prefix}
use domux.Discovery.Target.{resolve_target}
use domux.Discovery.Routes.{
  Finding, nothing, failure, route, RouteError, build_route, zone_key, zones_by_domain,
  find_in_zone, find_intended, find, add_finding, find_all, discover_routes,
}

-- A route leads to a host within its own domain.
abbrev pub IsInDomain : DiscoveredRoute → Type 0
IsInDomain r = domain_within_managed_domain r.domain r.host ≡ true

abbrev pub IsPlain : ManagedZone → Type 0
IsPlain z = IsPlainDomain z.domain

zones-IsPlain :
    (zones : List ManagedZone) (m : Mapping ManagedZone) (name : Text) (z : ManagedZone)
    → All IsPlain zones
    → ((n : Text) (y : ManagedZone) → get n m ≡ some y → IsPlain y)
    → get name (zones_by_domain zones m) ≡ some z
    → IsPlain z
unfolding zones_by_domain
zones-IsPlain [] m name z h k e = k name z e
zones-IsPlain (x ∷ xs) m name z h k e = zones-IsPlain xs (put (zone_key x) x m) name z h.1 kept e
  where
    kept : (n : Text) (y : ManagedZone) → get n (put (zone_key x) x m) ≡ some y → IsPlain y
    kept n y f = elim (Bool-cases (zone_key x == n)) [
      | inl same ↦
          let e' : x ≡ y = ground (arith, get-put (zone_key x) n x m) in subst IsPlain e' h.0
      | inr other ↦ k n y (ground (arith, get-put (zone_key x) n x m))
    ]

build_route-IsInDomain :
    (z : ManagedZone) (c : ContainerSnapshot) (i : RouteIntent) (t n s : Text)
    → IsPlain z
    → IsInDomain (build_route z c i t n s)
unfolding build_route
build_route-IsInDomain z c i t n s p = hostname-domain_within_managed_domain z _ p

module _ (env : Env) (exists : Text → Bool) (http_url : Text → Text) (source : RuntimeSource)
    (zones : List ManagedZone) (plain : All IsPlain zones) where
  find_in_zone-IsInDomain :
      (z : ManagedZone) (c : ContainerSnapshot) (i : RouteIntent) (r : DiscoveredRoute)
      → IsPlain z
      → find_in_zone env exists http_url source zones z c i ≡ route r
      → IsInDomain r
  unfolding find_in_zone
  find_in_zone-IsInDomain z c i r p h =
      elim (Result-cases (resolve_target env exists http_url source c i)) [
        | inr (e, bad) ↦ ground arith
        | inl ((network, url), good) ↦
            let same : build_route z c i url network (codes "server") ≡ r = ground arith in
            subst IsInDomain same (build_route-IsInDomain z c i url network (codes "server") p)
      ]

  no_zones : (n : Text) (y : ManagedZone) → get n [] ≡ some y → IsPlain y
  unfolding get
  no_zones n y e = cc

  find_intended-IsInDomain :
      (c : ContainerSnapshot) (i : RouteIntent) (r : DiscoveredRoute)
      → find_intended env exists http_url source zones c i ≡ route r
      → IsInDomain r
  unfolding find_intended
  find_intended-IsInDomain c i r h =
      let name = if i.domain == [] then default_managed_zone_name zones else i.domain in
      elim (Option-cases (get name (zones_by_domain zones []))) [
        | inl unknown ↦ ground arith
        | inr (z, found) ↦
            find_in_zone-IsInDomain z c i r (zones-IsPlain zones [] name z plain no_zones found)
              (ground arith)
      ]

  find-IsInDomain :
      (c : ContainerSnapshot) (r : DiscoveredRoute)
      → find env exists http_url source zones c ≡ route r
      → IsInDomain r
  unfolding find
  find-IsInDomain c r h = elim (Result-cases (parse_labels c.labels default_label_prefix)) [
    | inr (e, bad) ↦ ground arith
    | inl (i, parsed) ↦ find_intended-IsInDomain c i r (ground arith)
  ]

  add-IsInDomain :
      (f : Finding) (g : List DiscoveredRoute × List RouteError)
      → ((r : DiscoveredRoute) → f ≡ route r → IsInDomain r)
      → All IsInDomain g.0
      → All IsInDomain (add_finding env exists http_url source zones f g).0
  unfolding add_finding
  add-IsInDomain nothing (routes, errs) p h = h
  add-IsInDomain (failure e) (routes, errs) p h = h
  add-IsInDomain (route r) (routes, errs) p h = (p r refl, h)

  find_all-IsInDomain :
      (cs : List ContainerSnapshot)
      → All IsInDomain (find_all env exists http_url source zones cs).0
  unfolding find_all
  find_all-IsInDomain [] = tt
  find_all-IsInDomain (c ∷ cs) =
      add-IsInDomain (find env exists http_url source zones c)
        (find_all env exists http_url source zones cs) (find-IsInDomain c) (find_all-IsInDomain cs)

module _ (P : DiscoveredRoute → Type 0) (le : DiscoveredRoute → DiscoveredRoute → Bool) where
  All-insert :
      (r : DiscoveredRoute) (rs : List DiscoveredRoute) → P r → All P rs → All P (insert le r rs)
  unfolding insert
  All-insert r [] p h = (p, tt)
  All-insert r (q ∷ rs) p h = elim (Bool-cases (le r q)) [
    | inl first ↦ rw first (p, h)
    | inr later ↦ rw later (h.0, All-insert r rs p h.1)
  ]

  pub All-sort : (rs : List DiscoveredRoute) → All P rs → All P (sort le rs)
  unfolding sort
  All-sort [] h = tt
  All-sort (r ∷ rs) h = All-insert r (sort le rs) h.0 (All-sort rs h.1)

-- The routes are sorted by host, and every one of them has a host within its own domain, if the
-- domains of the zones are trimmed, not empty and no wildcards.
pub discover_routes-IsInDomain :
    (env : Env) (exists : Text → Bool) (http_url : Text → Text) (source : RuntimeSource)
    (zones : List ManagedZone) (snapshots : List ContainerSnapshot)
    → All IsPlain zones
    → Ascending
        (by_key (λ (r : DiscoveredRoute). r.host))
        (discover_routes env exists http_url source zones snapshots).0
      × All IsInDomain (discover_routes env exists http_url source zones snapshots).0
unfolding discover_routes
discover_routes-IsInDomain env exists http_url source zones snapshots plain =
    let routes = (find_all env exists http_url source zones snapshots).0 in
    let host = λ (r : DiscoveredRoute). r.host in
    (
      sort-Ascending (by_key host) (by_key_total host) (by_key_trans host) routes,
      All-sort IsInDomain (by_key host) routes
          (find_all-IsInDomain env exists http_url source zones plain snapshots),
    )
