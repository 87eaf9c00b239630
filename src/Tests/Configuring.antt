-- ===== src/Tests/Configuring.antt =====
-- The theorems on the configuration, its file and its providers, applied.
use domux.Prelude.{◌≡◌, ◌≢◌, ◌↔◌, refl, true, none, some, [], ◌∷◌, arith, All, if◌then◌else◌}
use domux.Prelude.Result.{Result, ok, err}
use domux.Text.{
  Text, codes, ◌==◌, trim_space, trim_left, trim_right, is_space, trim_prefix, trim_suffix,
  cut_prefix, cut_suffix, has_prefix, has_suffix,
}
use domux.Text.Equality.{eq_iff}
use domux.Mapping.{get, put}
use domux.Core.Types.{CustomApp, DdnsProviderConfig, RuntimeSource, runtime_docker}
use domux.Core.Names.{
  elem, compact_names, compact, domain_within_managed_domain, qualified_bundle_name,
}
use domux.Core.Zone.{
  certificate_plans, plan_defaults, plan_loop, plan_of, domains_for_managed_zone, first_outside,
  hostname,
}
use domux.Core.Runtime.{
  validate_source, is_supported_runtime, runtime_or_default, endpoint_or_default,
  normalize_endpoint, normalized,
}
use domux.Core.Bundles.{validate_provider, validate_app}
use domux.Config.File.{app_key, marshal}
use domux.Config.File.Grouped.{IsSettled, IsSettledZone, IsSettledApp, domains, grouped}
use domux.Providers.Registry.Builtin.{is_ok}
use domux.Providers.Options.Accepted.{IsAllowed, validate_provider_options_iff}
use domux.Config.Checks.{
  validate_auth, validate_public_ip, scan, check_provider, check_agent, check_target,
  check_target_agents, provider_refs, put_refs, check_provider_options, some_blank,
}
use domux.Config.Checks.Zones.{
  check_zones, check_zone, check_references, check_reference, check_certificate,
  check_certificate_provider, check_plans, check_plan_targets, see,
}
use domux.Config.Checks.Apps.{check_apps, check_app, check_place, app_host}
use domux.Providers.Options.{
  validate_provider_options, check_options, option, report_missing, missing,
}
use domux.Providers.Clients.{validate_cloudflare_config}
use domux.Files.{Disk, DiskLaws, write_atomically}
use domux.Files.Atomic.{read_file-write_atomically}
use domux.Providers.Registry.{
  Challenges, new_builtin_registry, exists, supports_record_type, validate_updater,
  validate_challenge, new_updater,
}
use domux.Config.{Config, no_auth, no_public_ip, is_unset, default_config}
use domux.Config.Manager.{
  Yaml, Tools, manager_path, update, load_file, read_config, validated, replace,
}
use domux.Config.Manager.Written.{Outcome, update-Outcome, read_config-update}
use domux.Config.Checks.Whole.{validate_config, effective_server, defaulted}
use domux.Config.Checks.Coherent.{IsCoherent}
use domux.Config.Checks.Whole.Sound.{validate_config-IsCoherent, validate_config-new_updater}
use domux.Tests.{zone, env, example_org}

-- Files as a function from paths, which never fails
abbrev disk : Disk Text
disk = record {
  State = Text → Result Text Text;
  read_file = λ path s. s path;
  mkdir_all = λ dir s. (s, none);
  write_file = λ path text mode s. ((λ q. if path == q then ok text else s q), none);
  rename = λ p q s. ((λ r. if q == r then s p else s r), none);
}

disk_laws : DiskLaws disk
disk_laws = record {
  mkdir_keeps = λ dir q s. refl;
  write_keeps = λ p q text mode s ne. ground (arith, ne, eq_iff p q);
  write_reads = λ p text mode s done. ground (arith, eq_iff p p);
  rename_reads = λ p q s done. ground (arith, eq_iff q q);
  rename_keeps = λ p q r s ne ne'. ground (arith, ne', eq_iff q r);
  rename_fails = λ p q r s e failed. absurd (cc failed);
}

abbrev no_files : Text → Result Text Text
no_files path = err (codes "no such file")

read_file-write_atomically_example :
    (write_atomically disk (codes "a") (codes "x") 420 no_files).0 (codes "a")
    ≡ elim (write_atomically disk (codes "a") (codes "x") 420 no_files).1 [
      | none ↦ ok (codes "x")
      | some e ↦ err (codes "no such file")
    ]
read_file-write_atomically_example =
    read_file-write_atomically disk disk_laws (codes "a") (codes "x") 420 no_files

abbrev app : CustomApp
app = record {
  name = codes "wiki";
  icon = [];
  domain = example_org;
  zone = example_org;
  subdomain = codes "wiki";
  exit_node = [];
  target_url = codes "http://10.0.0.2";
}

abbrev provider : DdnsProviderConfig
provider = record {
  ref = codes "cf";
  type = codes "cloudflare";
  options = (codes "api_token", codes "t") ∷ [];
}

abbrev runtime : RuntimeSource
runtime = record {
  display_name = [];
  runtime = runtime_docker;
  endpoint = codes "unix:///var/run/docker.sock";
  network = [];
}

abbrev config : Config
config = record {
  server = record {
    api_addr = codes ":18080";
    http_addr = [];
    https_addr = [];
    auth = no_auth;
    data_dir = codes "/data";
    public_ip = no_public_ip;
    runtime = runtime;
  };
  data_dir = codes "/data";
  public_ip = no_public_ip;
  ddns_providers = provider ∷ [];
  apps = app ∷ [];
  agents = [];
  deploy_targets = [];
  zones = zone ∷ [];
}

abbrev parse_url : Text → Result Text (Text × Text)
parse_url url = ok (codes "http", codes "10.0.0.2")

-- challenges that are never made
abbrev challenges : Challenges Unit
challenges = record {
  cloudflare = λ options. ok tt;
  alidns = λ options. ok tt;
  godaddy = λ options. ok tt;
  spaceship = λ options. ok tt;
}

config-valid : validate_config env parse_url challenges config ≡ []
unfolding validate_config new_builtin_registry get put ◌==◌ effective_server validate_auth
    trim_space validate_public_ip is_unset scan check_provider validate_provider exists elem
    validate_source is_supported_runtime runtime_or_default endpoint_or_default check_agent
    check_target check_target_agents provider_refs put_refs check_zones check_zone check_references
    check_reference check_certificate check_certificate_provider check_plans check_plan_targets see
    domux.Core.Zone.validate certificate_plans plan_defaults plan_loop plan_of
    domains_for_managed_zone compact_names compact domain_within_managed_domain
    qualified_bundle_name first_outside trim_suffix trim_prefix cut_suffix cut_prefix has_suffix
    has_prefix trim_left trim_right is_space supports_record_type check_apps check_app check_place
    validate_app app_key app_host hostname check_provider_options validate_updater
    validate_challenge validate_cloudflare_config validate_provider_options check_options option
    some_blank normalize_endpoint report_missing missing
config-valid = refl

validate_config-IsCoherent_example :
    IsCoherent (new_builtin_registry challenges).0 (defaulted config.zones) config
validate_config-IsCoherent_example =
    validate_config-IsCoherent env parse_url challenges config config-valid

validate_config-new_updater_example :
    All
      (λ p. is_ok (new_updater p.type p.options (new_builtin_registry challenges).0) ≡ true)
      (provider ∷ [])
validate_config-new_updater_example =
    validate_config-new_updater env parse_url challenges config config-valid

zone-IsSettledZone : IsSettledZone zone
unfolding trim_space trim_left trim_right is_space
zone-IsSettledZone = record {
  name = refl;
  named = λ h. absurd (cc h);
  domain = refl;
  placed = λ h. absurd (cc h);
}

app-IsSettledApp : IsSettledApp app
unfolding trim_space trim_left trim_right is_space
app-IsSettledApp = record {
  name = refl;
  named = λ h. absurd (cc h);
  icon = refl;
  subdomain = refl;
  exit_node = refl;
  target_url = refl;
  domain = refl;
  placed = λ h. absurd (cc h);
  zone = refl;
}

config-IsSettled : IsSettled env config
unfolding trim_space trim_left trim_right is_space elem ◌==◌ normalized normalize_endpoint
    runtime_or_default endpoint_or_default has_prefix
config-IsSettled = record {
  some_zone = refl;
  zones = (zone-IsSettledZone, tt);
  distinct = (refl, tt);
  apps = (app-IsSettledApp, tt);
  placed = (refl, tt);
  data_dir = λ h. absurd (cc h);
  runtime = refl;
}

-- YAML that knows one text, of the configuration above
abbrev yaml : Yaml Text
yaml = record {
  decode = λ text. ok (some (marshal config));
  encode = λ file. ok (codes "domains: example.org");
}

abbrev tools : Tools Text Text Unit
tools = record {
  yaml = yaml;
  dir = λ path. codes ".";
  is_not_exist = λ e. true;
  env = env;
  parse_url = parse_url;
  challenges = challenges;
}

abbrev add_app : Config → Result Text Config
add_app c = ok (record c { apps = app ∷ [] })

update-Outcome_example :
    Outcome disk disk_laws tools
      (manager_path [])
      add_app
      no_files
      (update disk tools [] add_app no_files).0
      (update disk tools [] add_app no_files).1
update-Outcome_example = update-Outcome disk disk_laws tools [] add_app no_files

abbrev put_config : Config → Result Text Config
put_config c = ok config

config-put : (update disk tools [] put_config no_files).1 ≡ ok config
unfolding update load_file read_config validated replace domux.Config.Manager.write_file
    write_atomically defaulted default_config manager_path
    domux.Core.Runtime.default_runtime_endpoint domux.Core.Runtime.runtime_endpoint_candidates
    domux.Core.Runtime.default_runtime domux.Text.contains validate_config new_builtin_registry get
    put ◌==◌ effective_server validate_auth trim_space validate_public_ip is_unset scan
    check_provider validate_provider exists elem validate_source is_supported_runtime
    runtime_or_default endpoint_or_default check_agent check_target check_target_agents
    provider_refs put_refs check_zones check_zone check_references check_reference check_certificate
    check_certificate_provider check_plans check_plan_targets see domux.Core.Zone.validate
    certificate_plans plan_defaults plan_loop plan_of domains_for_managed_zone compact_names compact
    domain_within_managed_domain qualified_bundle_name first_outside trim_suffix trim_prefix
    cut_suffix cut_prefix has_suffix has_prefix trim_left trim_right is_space supports_record_type
    check_apps check_app check_place validate_app app_key app_host hostname check_provider_options
    validate_updater validate_challenge validate_cloudflare_config validate_provider_options
    check_options option some_blank normalize_endpoint report_missing missing
config-put = refl

read_config-update_example :
    read_config disk tools (manager_path []) (update disk tools [] put_config no_files).0
    ≡ ok (record config { apps = grouped (domains (zone ∷ [])) (app ∷ []) })
read_config-update_example =
    read_config-update disk disk_laws tools [] put_config no_files config config-put
      config-IsSettled (λ text h. refl)

validate_provider_options_iff_example :
    (validate_provider_options
        (codes "cloudflare")
        provider.options
        (codes "api_token" ∷ [])
        (codes "api_token" ∷ [])
      ≡ none)
    ↔ (All (IsAllowed (codes "api_token" ∷ [])) provider.options
        × All (λ key. option provider.options key ≢ []) (codes "api_token" ∷ []))
validate_provider_options_iff_example =
    validate_provider_options_iff (codes "cloudflare") provider.options (codes "api_token" ∷ [])
      (codes "api_token" ∷ [])
