-- ===== src/Program/Refresh.antt =====
-- The store and the routes as cmd/domux/main.go keeps them up to date.
pub mod Bundles
pub mod Round
use domux.Prelude.{
  ℕ, Bool, true, false, not, ◌&&◌, ◌||◌, Option, none, some, List, [], ◌∷◌, ◌++◌, if◌then◌else◌,
  is_empty,
}
use domux.Prelude.Result.{Result, ok, err}
use domux.Text.{Text, codes, ◌==◌, trim_space}
use domux.Mapping.{Mapping}
use domux.Sort.{sort, by_key}
use domux.Core.Types.{
  ManagedZone, RuntimeSource, ContainerSnapshot, DiscoveredRoute, CertificatePlan,
  CertificateBundle, JobRun, Time,
}
use domux.Core.Names.{elem}
use domux.Core.Runtime.{Env, normalized, runtime_or_default}
use domux.Core.Zone.{ZoneError, certificate_plans}
use domux.Store.{
  MemoryStore, replace_domains, replace_runtimes, replace_ddns_providers, replace_custom_apps,
  replace_agents, replace_deploy_targets, replace_routes, replace_applications, list_domains,
  list_routes, list_custom_apps, list_bundles, delete_bundle, append_job_run,
}
use domux.Proxy.Http.{swap}
use domux.Agent.Pool.{Pool, Client}
use domux.Config.{Config, AuthConfig, auth_enabled}
use domux.Program.Routes.{
  AppRouteError, build_custom_app_routes, apply_custom_routes, merge_routes_for_source,
}
use domux.Program.Applications.{DiscoveredSnapshots, build_applications}

-- The loop of configuredBundleNames; the set as a list of its keys
unfoldable pub plan_names : List CertificatePlan → List Text → List Text
plan_names [] names = names
plan_names (p ∷ plans) names = plan_names plans (p.name ∷ names)

unfoldable pub configured_names : List ManagedZone → List Text → List Text × List ZoneError
unfolding plan_names
configured_names [] names = (names, [])
configured_names (z ∷ zones) names =
    let plans = if z.certificate.enabled then certificate_plans z else ok [] in
    let (names', here) : List Text × List ZoneError = elim plans [
      | ok found ↦ (plan_names found names, [])
      | err e ↦ (names, e ∷ [])
    ] in
    let (all, errs) = configured_names zones names' in (all, here ++ errs)

unfoldable pub configured_bundle_names : List ManagedZone → List Text × List ZoneError
unfolding configured_names
configured_bundle_names zones = configured_names zones []

-- the loop of pruneUnmanagedBundles
unfoldable pub prune_all : List Text → List CertificateBundle → MemoryStore → MemoryStore
prune_all managed [] s = s
prune_all managed (b ∷ bs) s =
    prune_all managed bs (if elem b.name managed then s else delete_bundle b.name s)

unfoldable pub prune_unmanaged_bundles : MemoryStore → MemoryStore × List ZoneError
unfolding prune_all configured_bundle_names
prune_unmanaged_bundles s =
    let (managed, errs) = configured_bundle_names (list_domains s) in
    if is_empty errs then (prune_all managed (list_bundles s) s, []) else (s, errs)

-- normalizeRuntimes
unfoldable pub normalize_runtimes : Env → RuntimeSource → List RuntimeSource
normalize_runtimes env source =
    if runtime_or_default env source == [] && trim_space source.endpoint == []
    then []
    else normalized env source ∷ []

-- seedConfigState; the store's own operations do not fail.
unfoldable pub seed_config_state : Env → Config → MemoryStore → MemoryStore × List ZoneError
unfolding prune_unmanaged_bundles normalize_runtimes
seed_config_state env c s = prune_unmanaged_bundles (
    replace_deploy_targets c.deploy_targets (
      replace_agents c.agents (
        replace_custom_apps c.apps (
          replace_ddns_providers c.ddns_providers (
            replace_runtimes env (normalize_runtimes env c.server.runtime)
              (replace_domains c.zones s))))))

-- recordJob and recordActionJob: the run that is appended, with the text of an error
unfoldable pub record_job : Text → Time → Time → Option Text → MemoryStore → MemoryStore
record_job name started finished failure s =
    append_job_run
      (elim failure [
        | none ↦ record {
          name = name;
          status = codes "success";
          message = [];
          started_at = started;
          finished_at = finished;
        }
        | some message ↦ record {
          name = name;
          status = codes "failed";
          message = message;
          started_at = started;
          finished_at = finished;
        }
      ])
      s

-- A routeDiscoverer: its name, what it answers to the calls, and the source it looks at
pub record RouteDiscoverer (Failure : Type 0) : Type 0 where
  pub name : Text
  pub startup_blocking : Bool
  pub source_config : RuntimeSource
  pub route_origin : Text
  pub snapshots : Result Failure (List ContainerSnapshot)
  pub discover_routes : List ManagedZone → List DiscoveredRoute × Option Failure

module _ {Failure : Type 0} where
  -- the loop of discoverAllRoutes
  unfoldable pub all_routes :
      List ManagedZone → List (RouteDiscoverer Failure) → List DiscoveredRoute × List Failure
  all_routes zones [] = ([], [])
  all_routes zones (d ∷ ds) =
      let (routes, failure) = d.discover_routes zones in
      let (more, errs) = all_routes zones ds in
      (routes ++ more, elim failure [ none ↦ errs | some e ↦ e ∷ errs ])

  unfoldable pub discover_all_routes :
      List ManagedZone → List (RouteDiscoverer Failure) → List DiscoveredRoute × List Failure
  unfolding all_routes
  discover_all_routes zones ds =
      let (routes, errs) = all_routes zones ds in (sort (by_key (λ r. r.host)) routes, errs)

  unfoldable pub discover_all_snapshots :
      List (RouteDiscoverer Failure) → List DiscoveredSnapshots × List (Text × Failure)
  discover_all_snapshots [] = ([], [])
  discover_all_snapshots (d ∷ ds) =
      let (entries, errs) = discover_all_snapshots ds in
      elim d.snapshots [
        | err e ↦ (entries, (d.name, e) ∷ errs)
        | ok found ↦ (
          record {
            node_name = d.name;
            source = d.source_config;
            origin = d.route_origin;
            snapshots = found;
          }
              ∷ entries,
          errs,
        )
      ]

  unfoldable pub startup_discoverers :
      List (RouteDiscoverer Failure) → List (RouteDiscoverer Failure)
  startup_discoverers [] = []
  startup_discoverers (d ∷ ds) =
      let rest = startup_discoverers ds in if d.startup_blocking then d ∷ rest else rest

  unfoldable pub discoverers_named :
      Text → List (RouteDiscoverer Failure) → List (RouteDiscoverer Failure)
  discoverers_named name [] = []
  discoverers_named name (d ∷ ds) =
      let rest = discoverers_named name ds in if d.name == name then d ∷ rest else rest

  -- selectedDiscoverers; the error is the source that no discoverer has.
  unfoldable pub selected_discoverers :
      List (RouteDiscoverer Failure) → Text → Result Text (List (RouteDiscoverer Failure))
  unfolding discoverers_named
  selected_discoverers ds raw =
      let source = trim_space raw in
      let selected = discoverers_named source ds in
      if source == [] then ok ds else if is_empty selected then err source else ok selected

-- withBasicAuth: whether the next handler serves a request, for its path and its credentials
unfoldable pub basic_auth_admits : AuthConfig → Text → Option (Text × Text) → Bool
basic_auth_admits c path credentials =
    if not (auth_enabled c)
    then true
    else if path == codes "/health"
    then true
    else elim credentials [
      | none ↦ false
      | some (username, password) ↦
          not (not (username == c.username) || not (password == c.password))
    ]
