-- ===== src/Config.antt =====
-- internal/platform/config/config.go: the configuration, its form in the file and its checks. The
-- YAML library is a parameter: what it decodes to is the type `File`.
pub mod File
pub mod Checks
pub mod Manager
use domux.Prelude.{
  ℕ, Bool, not, ◌||◌, Option, none, some, List, [], ◌∷◌, if◌then◌else◌, is_empty, ◌&&◌,
}
use domux.Prelude.Int.{ℤ, pos, is_zero}
use domux.Text.{Text, codes, ◌==◌, trim_space}
use domux.Core.Types.{
  ManagedZone, DdnsZoneConfig, CertificatePolicy, DdnsProviderConfig, CustomApp, AgentNode,
  DeployTarget, RuntimeSource, Duration, runtime_docker,
}
use domux.Core.Runtime.{Env, default_runtime_endpoint}

pub record AuthConfig : Type 0 where
  pub username : Text
  pub password : Text

pub record PublicIpConfig : Type 0 where
  pub ipv4_urls : List Text
  pub ipv6_urls : List Text
  pub timeout : Duration

pub record ServerConfig : Type 0 where
  pub api_addr : Text
  pub http_addr : Text
  pub https_addr : Text
  pub auth : AuthConfig
  pub data_dir : Text
  pub public_ip : PublicIpConfig
  pub runtime : RuntimeSource

pub record Config : Type 0 where
  pub server : ServerConfig
  pub data_dir : Text
  pub public_ip : PublicIpConfig
  pub ddns_providers : List DdnsProviderConfig
  pub apps : List CustomApp
  pub agents : List AgentNode
  pub deploy_targets : List DeployTarget
  pub zones : List ManagedZone

-- manualEntryConfigYAML
pub record ManualEntry : Type 0 where
  pub name : Text
  pub icon : Text
  pub subdomain : Text
  pub exit_node : Text
  pub target_url : Text

-- domainConfigYAML, with its manual entries
pub record DomainConfig : Type 0 where
  pub domain : Text
  pub name : Text
  pub default : Bool
  pub wildcard : Bool
  pub ddns : DdnsZoneConfig
  pub certificate : CertificatePolicy
  pub manual : List ManualEntry

-- configYAML
pub record ConfigFile : Type 0 where
  pub server : ServerConfig
  pub data_dir : Text
  pub public_ip : PublicIpConfig
  pub ddns_providers : List DdnsProviderConfig
  pub apps : List CustomApp
  pub agents : List AgentNode
  pub deploy_targets : List DeployTarget
  pub zones : List ManagedZone
  pub domains : List DomainConfig

abbrev pub no_auth : AuthConfig
no_auth = record { username = []; password = [] }

abbrev pub no_public_ip : PublicIpConfig
no_public_ip = record { ipv4_urls = []; ipv6_urls = []; timeout = pos 0 }

-- Default
unfoldable pub default_config : Env → Config
default_config env = record {
  server = record {
    api_addr = codes ":18080";
    http_addr = codes ":8080";
    https_addr = codes ":8443";
    auth = no_auth;
    data_dir = codes "./data";
    public_ip = no_public_ip;
    runtime = record {
      display_name = [];
      runtime = runtime_docker;
      endpoint = default_runtime_endpoint env runtime_docker;
      network = [];
    };
  };
  data_dir = [];
  public_ip = no_public_ip;
  ddns_providers = [];
  apps = [];
  agents = [];
  deploy_targets = [];
  zones = [];
}

-- whether the public_ip section is left out
unfoldable pub is_unset : PublicIpConfig → Bool
is_unset c = is_empty c.ipv4_urls && is_empty c.ipv6_urls && is_zero c.timeout

-- AuthConfig.Enabled
unfoldable pub auth_enabled : AuthConfig → Bool
auth_enabled c = not (c.username == []) || not (c.password == [])

-- AbsDataDir, over filepath.IsAbs and filepath.Join
unfoldable pub abs_data_dir : (Text → Bool) → (Text → Text → Text) → Text → Config → Text
abs_data_dir is_abs join_path base c =
    let dir =
      if trim_space c.server.data_dir == [] && not (trim_space c.data_dir == [])
      then c.data_dir
      else c.server.data_dir in
    if is_abs dir then dir else join_path base dir
