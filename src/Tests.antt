-- ===== src/Tests.antt =====
-- Values at which the theorems are applied.
pub mod Naming
pub mod Bundling
pub mod Serving
pub mod Syncing
pub mod Discovering
pub mod Running
pub mod Configuring
pub mod Working
use domux.Prelude.{ℕ, Bool, true, false, none, some, List, [], ◌∷◌}
use domux.Prelude.Int.{ℤ, pos}
use domux.Text.{Text, codes}
use domux.Mapping.{Mapping}
use domux.Core.Types.{
  DdnsZoneConfig, CertificateBundlePolicy, CertificatePolicy, ManagedZone, RuntimeSource,
  ContainerSnapshot, ContainerRef, DiscoveredRoute, DdnsSyncState, runtime_docker,
}
use domux.Core.Runtime.{Env}
use domux.Discovery.Labels.{RouteIntent}

abbrev pub example_org : Text
example_org = codes "example.org"

abbrev pub app_example_org : Text
app_example_org = codes "app.example.org"

abbrev pub bundle : CertificateBundlePolicy
bundle = record {
  name = codes "apps";
  domains = codes "*.example.org" ∷ [];
  renew_before = pos 0;
  deploy_targets = [];
}

abbrev pub zone : ManagedZone
zone = record {
  name = example_org;
  domain = example_org;
  default = true;
  wildcard = true;
  ddns = record {
    enabled = true;
    provider_refs = codes "cf" ∷ [];
    ipv4 = true;
    ipv6 = false;
    wildcard = true;
    ttl = pos 300;
  };
  certificate = record {
    enabled = true;
    email = codes "admin@example.org";
    dns_provider = codes "cf";
    renew_before = pos 1;
    deploy_targets = [];
    bundles = bundle ∷ [];
  };
}

-- An environment without variables and links.
abbrev pub env : Env
env = record {
  getenv = λ name. [];
  eval_symlinks = λ path. none;
  uid = pos 1000;
  itoa = λ n. codes "1000";
  join_path = λ parts. codes "/";
  unicode_lower = λ c. c;
}

abbrev pub source : RuntimeSource
source = record {
  display_name = [];
  runtime = codes " Docker ";
  endpoint = [];
  network = codes "front";
}

abbrev pub container : ContainerSnapshot
container = record {
  id = codes "c1";
  name = codes "app";
  image = codes "app:1";
  runtime = runtime_docker;
  running = true;
  state = codes "running";
  host_network = false;
  labels = (codes "domux.domain", example_org) ∷ [];
  networks = (codes "front", codes "172.18.0.2") ∷ [];
  exposed_ports = pos 8443 ∷ pos 8080 ∷ [];
  published_ports = [];
}

abbrev pub intent : RouteIntent
intent = record {
  managed = true;
  domain = example_org;
  zone = [];
  subdomain = [];
  port = pos 0;
  network = [];
}

abbrev pub app_route : DiscoveredRoute
app_route = record {
  id = codes "c1";
  name = codes "app";
  icon = [];
  domain = example_org;
  zone = example_org;
  subdomain = codes "app";
  host = codes "App.example.org";
  source = [];
  exit_node = [];
  origin = [];
  runtime = [];
  target_url = codes "http://172.18.0.2:8080";
  proxy_url = [];
  network = codes "front";
  container = record { id = []; name = []; image = []; source = []; runtime = [] };
}

abbrev pub sync_state : DdnsSyncState
sync_state = record {
  domain = example_org;
  zone = [];
  provider = codes "cf";
  host = app_example_org;
  record_type = codes "A";
  value = codes "192.0.2.1";
  status = codes "success";
  error = [];
  synced_at = 1;
}
