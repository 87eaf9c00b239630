-- ===== src/Config/File.antt =====
-- UnmarshalYAML, MarshalYAML and normalizeLegacyModel of internal/platform/config/config.go, between
-- a configuration and the decoded file.
pub mod Grouped
pub mod RoundTrip
use domux.Prelude.{Bool, not, Option, none, some, List, [], ◌∷◌, ◌++◌, if◌then◌else◌, is_empty, map}
use domux.Text.{Text, ◌==◌, trim_space}
use domux.Mapping.{Mapping, get, put}
use domux.Core.Types.{ManagedZone, CustomApp}
use domux.Core.Runtime.{Env, normalized}
use domux.Config.{
  PublicIpConfig, ServerConfig, Config, ManualEntry, DomainConfig, ConfigFile, is_unset,
  no_public_ip,
}

-- The trimmed domain of an app, or else its trimmed zone
unfoldable pub app_key : CustomApp → Text
app_key app = if trim_space app.domain == [] then trim_space app.zone else trim_space app.domain

-- UnmarshalYAML: an entry of a domain
unfoldable pub app_of : Text → ManualEntry → CustomApp
app_of domain entry = record {
  name = if trim_space entry.name == [] then trim_space entry.subdomain else trim_space entry.name;
  icon = trim_space entry.icon;
  domain = domain;
  zone = domain;
  subdomain = trim_space entry.subdomain;
  exit_node = trim_space entry.exit_node;
  target_url = trim_space entry.target_url;
}

unfoldable pub zone_of : DomainConfig → ManagedZone
zone_of d = record {
  name = if trim_space d.name == [] then trim_space d.domain else trim_space d.name;
  domain = trim_space d.domain;
  default = d.default;
  wildcard = d.wildcard;
  ddns = d.ddns;
  certificate = d.certificate;
}

unfoldable pub apps_of : List DomainConfig → List CustomApp
apps_of [] = []
apps_of (d ∷ ds) = map (app_of (trim_space d.domain)) d.manual ++ apps_of ds

-- The loop of normalizeLegacyModel over the zones: the zones, and the domains by older names
unfoldable pub normalize_zones : List ManagedZone → Mapping Text → List ManagedZone × Mapping Text
normalize_zones [] known = ([], known)
normalize_zones (z ∷ zones) known =
    let name = trim_space z.name in
    let domain = if trim_space z.domain == [] then name else trim_space z.domain in
    let named = if name == [] then known else put name domain known in
    let z' = record z { name = if name == [] then domain else name; domain = domain } in
    let (rest, known') =
      normalize_zones zones (if domain == [] then known else put domain domain named) in
    ((if domain == [] then z else z') ∷ rest, known')

unfoldable pub normalize_app : Mapping Text → CustomApp → CustomApp
unfolding app_key
normalize_app known app = elim (get (app_key app) known) [
  | some domain ↦ record app { zone = domain; domain = domain }
  | none ↦ record app { zone = trim_space app.zone; domain = trim_space app.domain }
]

unfoldable pub normalize_legacy_model :
    List ManagedZone → List CustomApp → List ManagedZone × List CustomApp
normalize_legacy_model zones apps =
    let (zones', known) = normalize_zones zones [] in (zones', map (normalize_app known) apps)

-- UnmarshalYAML: the server section, with the older places of two of its settings
unfoldable pub server_of : Env → ConfigFile → ServerConfig
server_of env raw = record raw.server {
  data_dir = if trim_space raw.server.data_dir == [] then raw.data_dir else raw.server.data_dir;
  public_ip = if is_unset raw.server.public_ip then raw.public_ip else raw.server.public_ip;
  runtime = normalized env raw.server.runtime;
}

-- UnmarshalYAML
unfoldable pub unmarshal : Env → ConfigFile → Config
unfolding server_of
unmarshal env raw =
    let server = server_of env raw in
    let (zones, apps) =
      if is_empty raw.domains
      then normalize_legacy_model raw.zones raw.apps
      else (map zone_of raw.domains, apps_of raw.domains) in
    record {
      server = server;
      data_dir = server.data_dir;
      public_ip = server.public_ip;
      ddns_providers = raw.ddns_providers;
      apps = apps;
      agents = raw.agents;
      deploy_targets = raw.deploy_targets;
      zones = zones;
    }

-- MarshalYAML: the apps with a key, in order, which is what the map of the source holds at the key
unfoldable pub apps_at : Text → List CustomApp → List CustomApp
apps_at key [] = []
apps_at key (app ∷ apps) =
    let rest = apps_at key apps in if app_key app == key then app ∷ rest else rest

unfoldable pub entry_of : CustomApp → ManualEntry
entry_of app = record {
  name = trim_space app.name;
  icon = trim_space app.icon;
  subdomain = trim_space app.subdomain;
  exit_node = trim_space app.exit_node;
  target_url = trim_space app.target_url;
}

unfoldable pub domain_of : List CustomApp → ManagedZone → DomainConfig
domain_of apps z =
    let domain = if trim_space z.domain == [] then trim_space z.name else trim_space z.domain in
    record {
      domain = domain;
      name = trim_space z.name;
      default = z.default;
      wildcard = z.wildcard;
      ddns = z.ddns;
      certificate = z.certificate;
      manual = map entry_of (apps_at domain apps);
    }

-- MarshalYAML
unfoldable pub marshal : Config → ConfigFile
marshal c = record {
  server = c.server;
  data_dir = [];
  public_ip = no_public_ip;
  ddns_providers = c.ddns_providers;
  apps = [];
  agents = c.agents;
  deploy_targets = c.deploy_targets;
  zones = [];
  domains = map (domain_of c.apps) c.zones;
}
