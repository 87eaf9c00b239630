-- ===== src/Program/Refresh/Round.antt =====
-- refreshRoutesWithDiscoverers, deployBundle, deployStoredBundles and syncCertificateRequests in
-- cmd/domux/main.go: one run of each job over the store.
use domux.Prelude.{Bool, Option, none, some, List, [], ◌∷◌, ◌++◌, if◌then◌else◌, is_empty}
use domux.Prelude.Result.{Result, ok, err}
use domux.Text.{Text, ◌==◌}
use domux.Mapping.{Mapping, get}
use domux.Core.Types.{CertificateBundle, DdnsProviderConfig, DeployRun, DiscoveredRoute}
use domux.Core.Runtime.{Env}
use domux.Store.{
  MemoryStore, replace_routes, replace_applications, list_domains, list_routes, list_custom_apps,
  put_bundle, append_deploy_run,
}
use domux.Proxy.Http.{swap}
use domux.Agent.Pool.{Pool, Client}
use domux.Certs.Requests.{IssueRequest}
use domux.Program.Routes.{
  AppRouteError, build_custom_app_routes, apply_custom_routes, merge_routes_for_source,
}
use domux.Program.Applications.{build_applications}
use domux.Program.Selection.{filter_deploy_targets}
use domux.Program.Refresh.{
  RouteDiscoverer, selected_discoverers, discover_all_routes, discover_all_snapshots,
}

-- What the program keeps: the store and the proxy's table
pub record Running : Type 0 where
  pub store : MemoryStore
  pub table : Mapping DiscoveredRoute

pub data RefreshError (Failure ProxyError : Type 0) : Type 0 where
  unknown_source : Text → RefreshError Failure ProxyError
  incomplete :
      List Failure
      → List (AppRouteError ProxyError)
      → List (Text × Failure)
      → RefreshError Failure ProxyError

module _ {Failure ProxyError : Type 0} (env : Env) (exists : Text → Bool)
    (http_url quote : Text → Text) (http_proxy_url : Client → Text → Result ProxyError Text)
    (pool : Option Pool) (discoverers : List (RouteDiscoverer Failure)) where
  -- the routes that a refresh makes
  unfoldable pub refreshed_routes :
      List (RouteDiscoverer Failure) → Text → MemoryStore → List DiscoveredRoute
  refreshed_routes selected source s =
      let found = (discover_all_routes (list_domains s) selected).0 in
      let custom =
        (build_custom_app_routes http_proxy_url pool (list_domains s) (list_custom_apps s)).0 in
      apply_custom_routes env.unicode_lower
        (if source == [] then found else merge_routes_for_source (list_routes s) source found)
        custom

  -- refreshRoutesWithDiscoverers; the store's own operations do not fail.
  unfoldable pub refresh_routes :
      Text → Running → Running × Option (RefreshError Failure ProxyError)
  unfolding refreshed_routes
  refresh_routes source running = elim (selected_discoverers discoverers source) [
    | err missing ↦ (running, some (unknown_source missing))
    | ok selected ↦
        let s = running.store in
        let routes = refreshed_routes selected source s in
        let custom =
          build_custom_app_routes http_proxy_url pool (list_domains s) (list_custom_apps s) in
        let snapshots = discover_all_snapshots discoverers in
        let apps =
          build_applications env exists http_url quote (list_domains s) snapshots.0 routes
            custom.0 in
        let after : Running = record {
          store = replace_applications apps (replace_routes routes s);
          table = swap env.unicode_lower routes;
        } in
        let failures = (discover_all_routes (list_domains s) selected).1 in
        if is_empty failures
        then if is_empty custom.1
          then if is_empty snapshots.1
            then (after, none)
            else (after, some (incomplete failures custom.1 snapshots.1))
          else (after, some (incomplete failures custom.1 snapshots.1))
        else (after, some (incomplete failures custom.1 snapshots.1))
  ]

-- the loop of deployBundle over the runs
unfoldable pub append_runs : List DeployRun → MemoryStore → MemoryStore
append_runs [] s = s
append_runs (run ∷ runs) s = append_runs runs (append_deploy_run run s)

module _ {Failure : Type 0}
    (deploy : CertificateBundle → List Text → MemoryStore → List DeployRun × List Failure) where
  unfoldable pub deploy_and_record :
      CertificateBundle → List Text → MemoryStore → MemoryStore × List Failure
  unfolding append_runs
  deploy_and_record bundle names s =
      let (runs, errs) = deploy bundle names s in (append_runs runs s, errs)

  unfoldable pub deploy_stored_bundles :
      Text → List CertificateBundle → MemoryStore → MemoryStore × List Failure
  unfolding deploy_and_record
  deploy_stored_bundles target [] s = (s, [])
  deploy_stored_bundles target (b ∷ bundles) s =
      let names =
        if target == [] then filter_deploy_targets b.deploy_targets target else target ∷ [] in
      let (s', errs) = if is_empty names then (s, []) else deploy_and_record b names s in
      let (s'', more) = deploy_stored_bundles target bundles s' in (s'', errs ++ more)

  -- The TLS store with the files of certificates, its LoadPair, and the manager's call for a request
  module _ {Tls : Type 0} (load_pair : Text → Text → Text → Tls → Tls × Option Failure)
      (issue : IssueRequest → DdnsProviderConfig → Tls → Tls × Result Failure CertificateBundle)
      (missing : Text → Failure) where
    unfoldable pub load_pairs : CertificateBundle → List Text → Tls → Tls × List Failure
    load_pairs bundle [] tls = (tls, [])
    load_pairs bundle (domain ∷ domains) tls =
        let (tls', failed) = load_pair domain bundle.cert_path bundle.key_path tls in
        let (tls'', errs) = load_pairs bundle domains tls' in
        (tls'', elim failed [ none ↦ errs | some e ↦ e ∷ errs ])

    -- One round of syncCertificateRequests
    unfoldable pub sync_request :
        Mapping DdnsProviderConfig
        → IssueRequest
        → MemoryStore × Tls
        → (MemoryStore × Tls) × List Failure
    unfolding load_pairs deploy_and_record
    sync_request providers request (s, tls) = elim (get request.dns_provider providers) [
      | none ↦ ((s, tls), missing request.dns_provider ∷ [])
      | some provider ↦
          let (issued, outcome) = issue request provider tls in
          elim outcome [
            | err e ↦ ((s, issued), e ∷ [])
            | ok bundle ↦
                let s' = put_bundle bundle s in
                let (tls', errs) = load_pairs bundle bundle.domains issued in
                let (s'', more) : MemoryStore × List Failure =
                  if is_empty bundle.deploy_targets
                  then (s', [])
                  else deploy_and_record bundle bundle.deploy_targets s' in
                ((s'', tls'), errs ++ more)
          ]
    ]

    unfoldable pub sync_certificate_requests :
        Mapping DdnsProviderConfig
        → List IssueRequest
        → MemoryStore × Tls
        → (MemoryStore × Tls) × List Failure
    unfolding sync_request
    sync_certificate_requests providers [] w = (w, [])
    sync_certificate_requests providers (request ∷ requests) w =
        let (w', errs) = sync_request providers request w in
        let (w'', more) = sync_certificate_requests providers requests w' in (w'', errs ++ more)
