-- ===== src/Discovery/Routes.antt =====
-- BuildRoute and DiscoverRoutesFromSnapshots of internal/discovery/docker/discovery.go.
pub mod Hosts
pub mod Accounted
use domux.Prelude.{Bool, true, false, not, Option, none, some, List, [], ◌∷◌, ◌++◌, if◌then◌else◌}
use domux.Prelude.Result.{Result, ok, err}
use domux.Text.{Text, codes, ◌==◌, trim_space, trim_prefix}
use domux.Mapping.{Mapping, get, put}
use domux.Sort.{sort, by_key}
use domux.Core.Types.{
  ManagedZone, RuntimeSource, ContainerSnapshot, DiscoveredRoute, origin_local_docker,
}
use domux.Core.Runtime.{Env}
use domux.Core.Zone.{hostname, default_managed_zone_name}
use domux.Discovery.Labels.{RouteIntent, LabelError, parse_labels, default_label_prefix}
use domux.Discovery.Target.{TargetError, resolve_target}

abbrev pub local_node_name : Text
local_node_name = codes "server"

-- ContainerSnapshot.DefaultSubdomain
unfoldable pub default_subdomain : ContainerSnapshot → Text
default_subdomain c = trim_prefix (codes "/") (trim_space c.name)

unfoldable pub build_route :
    ManagedZone → ContainerSnapshot → RouteIntent → Text → Text → Text → DiscoveredRoute
build_route zone snapshot intent target_url selected_network source =
    let subdomain =
      if intent.subdomain == [] then default_subdomain snapshot else intent.subdomain in
    let host = hostname zone subdomain in
    record {
      id = snapshot.id ++ b':' ∷ host;
      name = [];
      icon = [];
      domain = zone.domain;
      zone = zone.name;
      subdomain = subdomain;
      host = host;
      source = source;
      exit_node = [];
      origin = origin_local_docker;
      runtime = snapshot.runtime;
      target_url = target_url;
      proxy_url = [];
      network = selected_network;
      container = record {
        id = snapshot.id;
        name = snapshot.name;
        image = snapshot.image;
        source = source;
        runtime = snapshot.runtime;
      };
    }

-- The errors name the container.
pub data RouteError : Type 0 where
  bad_labels : Text → LabelError → RouteError
  unknown_domain : Text → Text → RouteError
  no_target : Text → TargetError → RouteError

-- What a container comes to: nothing, an error or a route.
pub data Finding : Type 0 where
  nothing : Finding
  failure : RouteError → Finding
  route : DiscoveredRoute → Finding

abbrev pub zone_key : ManagedZone → Text
zone_key zone =
    let domain = trim_space zone.domain in if domain == [] then trim_space zone.name else domain

-- zoneByDomain
unfoldable pub zones_by_domain : List ManagedZone → Mapping ManagedZone → Mapping ManagedZone
zones_by_domain [] m = m
zones_by_domain (zone ∷ zones) m = zones_by_domain zones (put (zone_key zone) zone m)

module _ (env : Env) (exists : Text → Bool) (http_url : Text → Text) (source : RuntimeSource)
    (zones : List ManagedZone) where
  -- what follows the lookup of the zone
  unfoldable pub find_in_zone : ManagedZone → ContainerSnapshot → RouteIntent → Finding
  find_in_zone zone snapshot intent =
      elim (resolve_target env exists http_url source snapshot intent) [
        | err e ↦ failure (no_target snapshot.name e)
        | ok (network, target_url) ↦
            route (build_route zone snapshot intent target_url network local_node_name)
      ]

  -- what follows ParseLabels
  unfoldable pub find_intended : ContainerSnapshot → RouteIntent → Finding
  find_intended snapshot intent =
      let name = if intent.domain == [] then default_managed_zone_name zones else intent.domain in
      if not intent.managed then nothing else elim (get name (zones_by_domain zones [])) [
        | none ↦ failure (unknown_domain snapshot.name name)
        | some zone ↦ find_in_zone zone snapshot intent
      ]

  -- One round of the loop
  unfoldable pub find : ContainerSnapshot → Finding
  find snapshot =
      if not snapshot.running
      then nothing
      else elim (parse_labels snapshot.labels default_label_prefix) [
        | err e ↦ failure (bad_labels snapshot.name e)
        | ok intent ↦ find_intended snapshot intent
      ]

  unfoldable pub add_finding :
      Finding → List DiscoveredRoute × List RouteError → List DiscoveredRoute × List RouteError
  add_finding nothing (routes, errs) = (routes, errs)
  add_finding (failure e) (routes, errs) = (routes, e ∷ errs)
  add_finding (route r) (routes, errs) = (r ∷ routes, errs)

  -- The loop
  unfoldable pub find_all : List ContainerSnapshot → List DiscoveredRoute × List RouteError
  unfolding add_finding
  find_all [] = ([], [])
  find_all (snapshot ∷ snapshots) = add_finding (find snapshot) (find_all snapshots)

  -- DiscoverRoutesFromSnapshots
  unfoldable pub discover_routes : List ContainerSnapshot → List DiscoveredRoute × List RouteError
  discover_routes snapshots =
      let (routes, errs) = find_all snapshots in (sort (by_key (λ r. r.host)) routes, errs)
