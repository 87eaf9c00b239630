-- ===== src/Tests/Working.antt =====
-- The theorems on the jobs of the program, applied.
use domux.Prelude.{
  List, ◌⊎◌, ℕ, ◌≡◌, refl, true, false, ◌||◌, none, some, [], ◌∷◌, arith, All, length,
  if◌then◌else◌, inr,
}
use domux.Prelude.Int.{pos}
use domux.Prelude.Result.{Result, ok, err}
use domux.Text.{
  Text, codes, ◌==◌, to_lower, lower, before, trim_space, trim_left, trim_right, is_space,
  cut_prefix, cut_suffix, has_suffix, trim_suffix,
}
use domux.Mapping.Keyed.{IsKeyed, IsKeyed-nil, put-IsKeyed}
use domux.Core.Types.{
  Duration, Time, CertificateBundle, DeployTarget, DiscoveredRoute, transport_local,
  origin_custom_app, origin_local_docker,
}
use domux.Core.Names.{dot, elem}
use domux.Proxy.Http.{lookup, lookup_key, swap}
use domux.Store.{MemoryStore, new_memory_store, put_bundle, put_domain, get_bundle, list_domains}
use domux.Ddns.Detection.{DetectError, detect_family, default_http_detector}
use domux.Ddns.Detection.Answers.{FirstAnswer, AllSilent, detect_family-FirstAnswer}
use domux.Certs.Deploy.{Deployers, deploy_bundle}
use domux.Certs.Deploy.Runs.{deploy_bundle-runs, targets_of, count_failed}
use domux.Certs.Challenge.{Dns01, present, clean_up}
use domux.Certs.Challenge.Guarded.{IsGuarded, present-IsGuarded}
use domux.Providers.Spaceship.{Api, SpaceshipRecord, page_size, list_pages}
use domux.Providers.Spaceship.Listing.{take, drop, list_pages-all}
use domux.Program.Routes.{
  apply_custom_routes, rename_conflicting_route, blocked_hosts, slug_label, slug_loop, trim_dashes,
  host_suffix,
}
use domux.Program.Routes.Hosts.{lookup-apply_custom_routes}
use domux.Program.Applications.{DiscoveredSnapshots, build_applications}
use domux.Program.Applications.Explained.{IsExplained, build_applications-IsExplained}
use domux.Program.Refresh.{prune_unmanaged_bundles}
use domux.Program.Refresh.Bundles.{
  is_refused, is_planned, some_zone, get_bundle-prune_unmanaged_bundles,
}
use domux.Tests.{example_org, app_example_org, zone, env, source, container, app_route}

abbrev ascii : ℕ → ℕ
ascii c = c

-- A discovered route at the host of the app, and the app's own
abbrev found : DiscoveredRoute
found = record app_route { source = codes "server"; origin = origin_local_docker }

abbrev custom : DiscoveredRoute
custom = record app_route {
  id = codes "custom:app";
  origin = origin_custom_app;
  host = app_example_org;
  source = codes "manual";
}

key_of_host : lookup_key ascii (codes "APP.example.org:443") ≡ to_lower ascii custom.host
unfolding lookup_key to_lower lower before
key_of_host = refl

custom-blocked : elem (to_lower ascii custom.host) (blocked_hosts ascii (custom ∷ [])) ≡ true
unfolding elem blocked_hosts to_lower lower ◌==◌
custom-blocked = refl

found-apart :
    (to_lower ascii (rename_conflicting_route ascii found).host == to_lower ascii custom.host)
    ≡ false
unfolding rename_conflicting_route slug_label slug_loop trim_dashes host_suffix to_lower lower ◌==◌
    trim_space trim_left trim_right is_space has_suffix cut_suffix cut_prefix
found-apart = refl

lookup-apply_custom_routes_example :
    lookup ascii
      (codes "APP.example.org:443")
      (swap ascii (apply_custom_routes ascii (found ∷ []) (custom ∷ [])))
    ≡ some custom
lookup-apply_custom_routes_example =
    lookup-apply_custom_routes ascii (found ∷ []) (custom ∷ []) custom (codes "APP.example.org:443")
      key_of_host custom-blocked (inr refl, tt) (found-apart, tt)

abbrev entry : DiscoveredSnapshots
entry = record {
  node_name = codes "server";
  source = source;
  origin = origin_local_docker;
  snapshots = container ∷ [];
}

build_applications-IsExplained_example : All IsExplained (
    build_applications env
      (λ path. false)
      (λ host. host)
      (λ text. text)
      (zone ∷ [])
      (entry ∷ [])
      (custom ∷ [])
      (custom ∷ []))
build_applications-IsExplained_example =
    build_applications-IsExplained env (λ path. false) (λ host. host) (λ text. text) (zone ∷ [])
      (entry ∷ []) (custom ∷ []) (custom ∷ [])

abbrev dns_record : SpaceshipRecord
dns_record = record {
  type = codes "A";
  name = codes "app";
  ttl = pos 3600;
  address = codes "192.0.2.1";
  group = codes "custom";
}

-- A service that holds two records
abbrev spaceship : Api Unit Text
spaceship = record {
  page = λ domain skip s. ok (take page_size (drop skip (dns_record ∷ dns_record ∷ [])), pos 2);
  delete_records = λ domain records s. (s, none);
  save_record = λ domain r s. (s, none);
  equal_fold = λ a b. a == b;
}

list_pages-all_example :
    list_pages spaceship example_org tt 3 0 [] ≡ some (ok (dns_record ∷ dns_record ∷ []))
list_pages-all_example =
    list_pages-all spaceship example_org tt (dns_record ∷ dns_record ∷ []) (λ k. refl) 3
      (omega arith)

abbrev deployers : Deployers Text
deployers = record {
  local = λ t cert key. (codes "deployed", none);
  agent = λ t b cert key. ([], some (codes "offline"));
  ssh = λ t b. ([], none);
  quote = λ text. text;
}

abbrev target : DeployTarget
target = record {
  name = codes "nginx";
  transport = transport_local;
  agent = record { node = [] };
  ssh = record { addr = []; user = []; port = pos 22; private_key_path = [] };
  cert_path = codes "/c";
  key_path = codes "/k";
  reload_command = [];
}

abbrev stored : CertificateBundle
stored = record {
  name = codes "old";
  domain = example_org;
  zone = example_org;
  domains = example_org ∷ [];
  deploy_targets = [];
  cert_path = codes "/c";
  key_path = codes "/k";
  not_after = 100;
}

abbrev read_pair : CertificateBundle → Result Text (Text × Text)
read_pair b = ok (codes "cert", codes "key")

abbrev clock : ℕ → Time × Time
clock i = (i, i)

deploy_bundle-runs_example :
    (targets_of
        (deploy_bundle deployers read_pair
          (target ∷ [])
          clock
          stored
          (codes "nginx" ∷ codes "nas" ∷ [])).0
      ≡ codes "nginx" ∷ codes "nas" ∷ [])
    × (length
          (deploy_bundle deployers read_pair
            (target ∷ [])
            clock
            stored
            (codes "nginx" ∷ codes "nas" ∷ [])).1
        ≡ count_failed
            (deploy_bundle deployers read_pair
              (target ∷ [])
              clock
              stored
              (codes "nginx" ∷ codes "nas" ∷ [])).0)
deploy_bundle-runs_example =
    deploy_bundle-runs deployers read_pair (target ∷ []) clock stored
      (codes "nginx" ∷ codes "nas" ∷ [])

-- A provider that counts its calls
abbrev dns01 : Dns01 ℕ
dns01 = record {
  effective_fqdn = λ domain key_auth. codes "_acme-challenge.example.org.";
  resolve_auth_zone = λ name. ok example_org;
  present = λ domain token key_auth n. (1, none);
  clean_up = λ domain token key_auth n. (2, none);
  unicode_lower = ascii;
}

present-IsGuarded_example :
    IsGuarded dns01 example_org
      (trim_suffix dot (codes "_acme-challenge.example.org."))
      (λ n. (1, none))
      0
      (present dns01 example_org example_org (codes "t") (codes "k") 0)
    × IsGuarded dns01 example_org
        (trim_suffix dot (codes "_acme-challenge.example.org."))
        (λ n. (2, none))
        0
        (clean_up dns01 example_org example_org (codes "t") (codes "k") 0)
present-IsGuarded_example =
    present-IsGuarded dns01 example_org example_org (codes "t") (codes "k") 0

abbrev store : MemoryStore
store = put_bundle stored (put_domain zone new_memory_store)

store-IsKeyed : IsKeyed (λ (b : CertificateBundle). b.name) store.bundles
unfolding put_bundle put_domain
store-IsKeyed =
    put-IsKeyed (λ (b : CertificateBundle). b.name) stored
      (IsKeyed-nil (λ (b : CertificateBundle). b.name))

get_bundle-prune_unmanaged_bundles_example :
    get_bundle (codes "old") (prune_unmanaged_bundles store).0 ≡ (
      if some_zone is_refused (list_domains store)
        || some_zone (is_planned (codes "old")) (list_domains store)
      then get_bundle (codes "old") store
      else none)
get_bundle-prune_unmanaged_bundles_example =
    get_bundle-prune_unmanaged_bundles (codes "old") store store-IsKeyed

-- The first address service fails, the second answers.
abbrev fetch : Duration → Text → Result Text Text
fetch timeout url = if url == codes "a" then err (codes "refused") else ok (codes " 192.0.2.1 ")

detect_family-FirstAnswer_example :
    ((v : Text) × ((detect_family fetch default_http_detector
            (codes "IPv4")
            (codes "a" ∷ codes "b" ∷ [])
          ≡ ok v)
        × FirstAnswer fetch default_http_detector (codes "IPv4") (codes "a" ∷ codes "b" ∷ []) v))
    ⊎ ((errs : List (DetectError Text)) × ((detect_family fetch default_http_detector
              (codes "IPv4")
              (codes "a" ∷ codes "b" ∷ [])
            ≡ err errs)
          × AllSilent fetch default_http_detector (codes "IPv4") (codes "a" ∷ codes "b" ∷ []) errs))
detect_family-FirstAnswer_example =
    detect_family-FirstAnswer fetch default_http_detector (codes "IPv4")
      (codes "a" ∷ codes "b" ∷ [])
