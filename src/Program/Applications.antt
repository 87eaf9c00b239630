-- ===== src/Program/Applications.antt =====
-- buildApplications and what it uses in cmd/domux/main.go: the list of applications that the program
-- shows, with the reason why one is not served. Go's %q is the parameter `quote`.
pub mod Explained
use domux.Prelude.{
  ℕ, Bool, true, false, not, ◌||◌, ◌&&◌, Option, none, some, List, [], ◌∷◌, ◌++◌, if◌then◌else◌,
  is_empty, is_some, map,
}
use domux.Prelude.Result.{Result, ok, err}
use domux.Text.{Text, codes, ◌==◌, trim_space, trim_prefix, to_lower, contains, le_text}
use domux.Mapping.{Mapping, get, put}
use domux.Sort.{sort, by_key, by_key_then}
use domux.Core.Types.{
  ManagedZone, RuntimeSource, ContainerSnapshot, DiscoveredRoute, Application, origin_custom_app,
  origin_remote_agent,
}
use domux.Core.Names.{elem, dot}
use domux.Core.Runtime.{Env}
use domux.Core.Zone.{default_managed_zone_name}
use domux.Discovery.Labels.{RouteIntent, LabelError, no_intent, parse_labels, default_label_prefix}
use domux.Discovery.Routes.{default_subdomain, local_node_name}
use domux.Discovery.Target.{resolve_target}

pub record DiscoveredSnapshots : Type 0 where
  pub node_name : Text
  pub source : RuntimeSource
  pub origin : Text
  pub snapshots : List ContainerSnapshot

abbrev pub status_proxied : Text
status_proxied = codes "proxied"

abbrev pub status_unproxied : Text
status_unproxied = codes "unproxied"

unfoldable pub source_node_name : DiscoveredSnapshots → Text
source_node_name entry =
    if entry.origin == origin_remote_agent then trim_space entry.node_name else local_node_name

unfoldable pub application_entry_url : Text → Text
application_entry_url raw =
    let host = trim_space raw in if host == [] then [] else codes "https://" ++ host

unfoldable pub route_domain : DiscoveredRoute → Text
route_domain route =
    let domain = trim_space route.domain in if domain == [] then trim_space route.zone else domain

unfoldable pub application_host : List ManagedZone → Text → Text → Text
application_host [] domain_name subdomain = []
application_host (z ∷ zones) domain_name subdomain =
    let rest = application_host zones domain_name subdomain in
    if domain_name == []
    then []
    else if not (z.domain == domain_name) && not (z.name == domain_name)
    then rest
    else if subdomain == []
    then z.domain
    else subdomain ++ dot ++ z.domain

-- the first text that is not blank, or the last one, trimmed
unfoldable pub first_named : List Text → Text
first_named [] = []
first_named (t ∷ ts) =
    let rest = first_named ts in let t' = trim_space t in if t' == [] then rest else t'

unfoldable pub application_from_route : DiscoveredRoute → Application
unfolding first_named application_entry_url route_domain
application_from_route r = record {
  id = r.id;
  name = first_named (r.name ∷ r.container.name ∷ r.subdomain ∷ r.host ∷ []);
  icon = r.icon;
  domain = route_domain r;
  zone = r.zone;
  subdomain = r.subdomain;
  host = r.host;
  entry_url = application_entry_url r.host;
  source = r.source;
  exit_node = r.exit_node;
  origin = r.origin;
  runtime = r.runtime;
  target_url = r.target_url;
  status = status_proxied;
  reason = [];
  container = r.container;
}

-- The text of an error of ParseLabels
unfoldable pub label_message : (Text → Text) → LabelError → Text
label_message quote (LabelError.conflicting domain zone) =
    codes "conflicting " ++ domain ++ codes " and " ++ zone ++ codes " values"
label_message quote (LabelError.invalid_port key raw) =
    codes "invalid " ++ key ++ codes " value " ++ quote raw

unfoldable pub productize_discovery_error : Text → Text
productize_discovery_error message =
    if contains (codes "invalid domux.port") message
    then codes "端口配置无效"
    else if contains (codes "no backend port") message
        || contains (codes "no valid backend port") message
    then codes "端口无法确定"
    else if contains (codes "no container network") message || contains (codes "network ") message
    then codes "节点不可达"
    else message

unfoldable pub application_intake_reason :
    List ManagedZone → RouteIntent → Option Text → Text → Text → Text
unfolding productize_discovery_error
application_intake_reason zones intent failed target_url host = elim failed [
  | some message ↦ productize_discovery_error message
  | none ↦
      if trim_space intent.domain == [] && default_managed_zone_name zones == []
      then if is_empty zones then codes "未找到默认域名" else codes "未找到默认域名：请指定接入域名或设置默认域名"
      else if not (trim_space intent.domain == []) && host == []
      then codes "指定域名不存在"
      else if trim_space target_url == []
      then codes "端口无法确定或节点不可达"
      else codes "入口未生成"
]

-- the intent that ParseLabels returns beside its error, and the error's text
abbrev pub intent_of : (Text → Text) → Result LabelError RouteIntent → RouteIntent × Option Text
intent_of quote (ok intent) = (intent, none)
intent_of quote (err e) = (no_intent, some (label_message quote e))

module _ (env : Env) (exists : Text → Bool) (http_url quote : Text → Text)
    (zones : List ManagedZone) where
  unfoldable pub discovered_application_target_url :
      RuntimeSource → ContainerSnapshot → RouteIntent → Text
  discovered_application_target_url source snapshot intent =
      elim (resolve_target env exists http_url source snapshot intent) [
        | ok (network, url) ↦ url
        | err e ↦ elim (resolve_target env exists http_url source snapshot no_intent) [
          | ok (network, url) ↦ url
          | err e ↦ []
        ]
      ]

  -- applicationFromSnapshot, behind ParseLabels
  unfoldable pub unrouted_application :
      DiscoveredSnapshots → ContainerSnapshot → RouteIntent → Option Text → Application
  unfolding source_node_name application_entry_url application_host application_intake_reason
      discovered_application_target_url
  unrouted_application entry snapshot intent failed =
      let wanted = trim_space intent.domain in
      let domain = if wanted == [] then default_managed_zone_name zones else wanted in
      let asked = trim_space intent.subdomain in
      let subdomain = if asked == [] then default_subdomain snapshot else asked in
      let host = application_host zones domain subdomain in
      let target_url = discovered_application_target_url entry.source snapshot intent in
      let plain = trim_prefix (codes "/") (trim_space snapshot.name) in
      let node = source_node_name entry in
      record {
        id = node ++ b':' ∷ snapshot.id;
        name =
            if not (trim_space subdomain == [])
            then subdomain
            else if not (trim_space plain == [])
            then plain
            else snapshot.id;
        icon = [];
        domain = domain;
        zone = domain;
        subdomain = subdomain;
        host = host;
        entry_url = application_entry_url host;
        source = node;
        exit_node = if entry.origin == origin_remote_agent then node else [];
        origin = entry.origin;
        runtime = snapshot.runtime;
        target_url = target_url;
        status = status_unproxied;
        reason = application_intake_reason zones intent failed target_url host;
        container = record {
          id = snapshot.id;
          name = snapshot.name;
          image = snapshot.image;
          source = node;
          runtime = snapshot.runtime;
        };
      }

  unfoldable pub application_from_snapshot :
      DiscoveredSnapshots → ContainerSnapshot → Option Application
  unfolding unrouted_application
  application_from_snapshot entry snapshot =
      let (intent, failed) = intent_of quote (parse_labels snapshot.labels default_label_prefix) in
      if not (is_some failed) && not intent.managed
      then none
      else some (unrouted_application entry snapshot intent failed)

  -- the key of a container in `routeByContainer`
  abbrev pub container_key : Text → Text → Text → Text
  container_key origin source id = origin ++ codes "|" ++ source ++ codes "|" ++ id

  -- The loop over the routes: the applications of custom apps, and the other routes by container. A
  -- key holds two bars, so it is never the one bar that the source tests for.
  unfoldable pub routed :
      List DiscoveredRoute → Mapping DiscoveredRoute → List Application × Mapping DiscoveredRoute
  unfolding application_from_route
  routed [] m = ([], m)
  routed (r ∷ routes) m =
      let custom = r.origin == origin_custom_app in
      let (apps, m') =
        routed routes
          (if custom then m else put (container_key r.origin r.source r.container.id) r m) in
      (if custom then application_from_route r ∷ apps else apps, m')

  -- an application whose host is a custom app's
  unfoldable pub mark_conflict : (ℕ → ℕ) → List Text → Application → Application
  mark_conflict unicode_lower blocked app =
      if not (app.host == []) && elem (to_lower unicode_lower app.host) blocked
      then record app { status = status_unproxied; reason = codes "子域名与自定义应用冲突" }
      else app

  -- One round of the inner loop over the snapshots
  unfoldable pub snapshot_application :
      List Text
      → Mapping DiscoveredRoute
      → DiscoveredSnapshots
      → ContainerSnapshot
      → Option Application
  unfolding application_from_snapshot mark_conflict source_node_name application_from_route
  snapshot_application blocked routes entry snapshot =
      if not snapshot.running
      then none
      else elim (get (container_key entry.origin (source_node_name entry) snapshot.id) routes) [
        | some route ↦ some (application_from_route route)
        | none ↦ elim (application_from_snapshot entry snapshot) [
          | none ↦ none
          | some app ↦ some (mark_conflict env.unicode_lower blocked app)
        ]
      ]

  unfoldable pub node_applications :
      List Text
      → Mapping DiscoveredRoute
      → DiscoveredSnapshots
      → List ContainerSnapshot
      → List Application
  unfolding snapshot_application
  node_applications blocked routes entry [] = []
  node_applications blocked routes entry (s ∷ snapshots) =
      let rest = node_applications blocked routes entry snapshots in
      elim (snapshot_application blocked routes entry s) [ none ↦ rest | some app ↦ app ∷ rest ]

  unfoldable pub snapshot_applications :
      List Text → Mapping DiscoveredRoute → List DiscoveredSnapshots → List Application
  unfolding node_applications
  snapshot_applications blocked routes [] = []
  snapshot_applications blocked routes (entry ∷ entries) =
      node_applications blocked routes entry entry.snapshots
      ++ snapshot_applications blocked routes entries

  -- buildApplications
  unfoldable pub build_applications :
      List DiscoveredSnapshots → List DiscoveredRoute → List DiscoveredRoute → List Application
  unfolding routed snapshot_applications
  build_applications entries routes custom =
      let blocked =
        map (λ (r : DiscoveredRoute). to_lower env.unicode_lower (trim_space r.host)) custom in
      let (apps, by_container) = routed routes [] in
      sort (by_key_then (λ (a : Application). a.status) (by_key (λ a. a.name)))
        (apps ++ snapshot_applications blocked by_container entries)
