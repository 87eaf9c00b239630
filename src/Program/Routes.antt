-- ===== src/Program/Routes.antt =====
-- Routes of custom apps and the other routes beside them, in cmd/domux/main.go.
pub mod Hosts
use domux.Prelude.{
  ℕ, Bool, true, false, not, ◌||◌, ◌&&◌, leb, nat_eq, Option, none, some, List, [], ◌∷◌, ◌++◌,
  if◌then◌else◌, is_empty, map,
}
use domux.Prelude.Result.{Result, ok, err}
use domux.Text.{Text, codes, ◌==◌, trim_space, to_lower, has_suffix}
use domux.Mapping.{Mapping, get, put}
use domux.Sort.{sort, by_key}
use domux.Core.Types.{ManagedZone, CustomApp, DiscoveredRoute, origin_custom_app}
use domux.Core.Names.{elem, dot}
use domux.Config.File.{app_key}
use domux.Config.Checks.Apps.{app_host}
use domux.Agent.Pool.{Pool, Client, get_by_name}

-- The loop over the zones, which knows each zone by its name and by its domain.
unfoldable pub zones_by_name : List ManagedZone → Mapping ManagedZone → Mapping ManagedZone
zones_by_name [] m = m
zones_by_name (z ∷ zones) m =
    let name = trim_space z.name in
    let domain = trim_space z.domain in
    let named = if name == [] then m else put name z m in
    zones_by_name zones (if domain == [] then named else put domain z named)

pub data AppRouteError (ProxyError : Type 0) : Type 0 where
  unknown_domain : Text → Text → AppRouteError ProxyError
  unavailable : Text → Text → AppRouteError ProxyError
  no_proxy_url : Text → Text → ProxyError → AppRouteError ProxyError

abbrev pub manual : Text
manual = codes "manual"

-- The route of an app, behind its zone and the URL of its proxy
unfoldable pub custom_route : CustomApp → ManagedZone → Text → DiscoveredRoute
unfolding app_host
custom_route app zone proxy_url =
    let host = app_host app zone in
    record {
      id = codes "custom:" ++ app.name ++ b':' ∷ host;
      name = app.name;
      icon = app.icon;
      domain = zone.domain;
      zone = zone.name;
      subdomain = app.subdomain;
      host = host;
      source = manual;
      exit_node = trim_space app.exit_node;
      origin = origin_custom_app;
      runtime = [];
      target_url = app.target_url;
      proxy_url = proxy_url;
      network = [];
      container = record { id = []; name = app.name; image = []; source = manual; runtime = [] };
    }

module _ {ProxyError : Type 0} (http_proxy_url : Client → Text → Result ProxyError Text)
    (pool : Option Pool) where
  -- the URL through the exit node of an app, empty without one; a nil pool has no clients
  unfoldable pub exit_proxy : CustomApp → Result (AppRouteError ProxyError) Text
  exit_proxy app =
      let node = trim_space app.exit_node in
      if node == [] then ok [] else elim pool [
        | none ↦ err (unavailable app.name node)
        | some p ↦ elim (get_by_name node p) [
          | none ↦ err (unavailable app.name node)
          | some client ↦ elim (http_proxy_url client app.target_url) [
            | err e ↦ err (no_proxy_url app.name node e)
            | ok url ↦ ok url
          ]
        ]
      ]

  -- One round of the loop
  unfoldable pub app_route :
      Mapping ManagedZone → CustomApp → Result (AppRouteError ProxyError) DiscoveredRoute
  unfolding exit_proxy app_key
  app_route zones app = elim (get (app_key app) zones) [
    | none ↦ err (unknown_domain app.name (app_key app))
    | some zone ↦ elim (exit_proxy app) [ err e ↦ err e | ok url ↦ ok (custom_route app zone url) ]
  ]

  unfoldable pub app_routes :
      Mapping ManagedZone → List CustomApp → List DiscoveredRoute × List (AppRouteError ProxyError)
  unfolding app_route
  app_routes zones [] = ([], [])
  app_routes zones (app ∷ apps) =
      let (routes, errs) = app_routes zones apps in
      elim (app_route zones app) [ ok r ↦ (r ∷ routes, errs) | err e ↦ (routes, e ∷ errs) ]

  unfoldable pub build_custom_app_routes :
      List ManagedZone → List CustomApp → List DiscoveredRoute × List (AppRouteError ProxyError)
  unfolding app_routes zones_by_name
  build_custom_app_routes zones apps =
      let (routes, errs) = app_routes (zones_by_name zones []) apps in
      (sort (by_key (λ r. r.host)) routes, errs)

unfoldable pub host_suffix : Text → Text
host_suffix host = after_dot (trim_space host)
  where
    after_dot : Text → Text
    after_dot [] = []
    after_dot (c ∷ s) = if nat_eq c b'.' then s else after_dot s

-- a letter or digit that a label keeps
abbrev pub is_label_char : ℕ → Bool
is_label_char c = (leb b'a' c && leb c b'z') || (leb b'0' c && leb c b'9')

-- The loop of slugLabel; the flag is `lastDash`.
unfoldable pub slug_loop : Bool → Text → Text
slug_loop dash [] = []
slug_loop dash (c ∷ s) =
    let rest = slug_loop (not (is_label_char c)) s in
    if is_label_char c then c ∷ rest else if dash then rest else b'-' ∷ rest

-- strings.Trim(s, "-")
unfoldable pub trim_dashes : Text → Text
trim_dashes s = right (left s)
  where
    left : Text → Text
    left [] = []
    left (c ∷ s) = if nat_eq c b'-' then left s else c ∷ s

    right : Text → Text
    right [] = []
    right (c ∷ s) = let rest = right s in if is_empty rest && nat_eq c b'-' then [] else c ∷ rest

module _ (unicode_lower : ℕ → ℕ) where
  unfoldable pub slug_label : Text → Text
  slug_label raw =
      let value = to_lower unicode_lower (trim_space raw) in
      if value == [] then [] else trim_dashes (slug_loop false value)

  -- renameConflictingRoute, which does not look at the other routes that it is given
  unfoldable pub rename_conflicting_route : DiscoveredRoute → DiscoveredRoute
  unfolding slug_label host_suffix
  rename_conflicting_route route =
      let sub = trim_space route.subdomain in
      let name = trim_space route.name in
      let container = trim_space route.container.name in
      let start =
        if not (sub == [])
        then sub
        else if not (name == [])
        then name
        else if not (container == [])
        then container
        else codes "app" in
      let slug = slug_label route.source in
      let node = if slug == [] then codes "node" else slug in
      let base = if start == node then start ++ codes "-app" else start in
      let node' = if has_suffix (codes "-" ++ node) base then node ++ codes "-node" else node in
      let subdomain = base ++ codes "-" ++ node' in
      let suffix = host_suffix route.host in
      let host = if suffix == [] then subdomain else subdomain ++ dot ++ suffix in
      record route { subdomain = subdomain; host = host; id = route.source ++ b':' ∷ host }

  -- `blockedHosts` of applyCustomRoutes
  unfoldable pub blocked_hosts : List DiscoveredRoute → List Text
  blocked_hosts = map (λ (r : DiscoveredRoute). to_lower unicode_lower r.host)

  -- The loop of applyCustomRoutes
  unfoldable pub settle : List Text → List DiscoveredRoute → List DiscoveredRoute
  unfolding rename_conflicting_route
  settle blocked [] = []
  settle blocked (r ∷ routes) =
      let rest = settle blocked routes in
      if r.origin == origin_custom_app
      then rest
      else (if elem (to_lower unicode_lower r.host) blocked then rename_conflicting_route r else r)
        ∷ rest

  unfoldable pub apply_custom_routes :
      List DiscoveredRoute → List DiscoveredRoute → List DiscoveredRoute
  unfolding settle blocked_hosts
  apply_custom_routes routes custom =
      sort (by_key (λ r. r.host)) (settle (blocked_hosts custom) routes ++ custom)

-- mergeRoutesForSource: the routes of other sources
unfoldable pub from_others : Text → List DiscoveredRoute → List DiscoveredRoute
from_others source [] = []
from_others source (r ∷ routes) =
    let rest = from_others source routes in if r.source == source then rest else r ∷ rest

unfoldable pub merge_routes_for_source :
    List DiscoveredRoute → Text → List DiscoveredRoute → List DiscoveredRoute
unfolding from_others
merge_routes_for_source existing source refreshed =
    sort (by_key (λ r. r.host)) (from_others source existing ++ refreshed)
