-- ===== src/Core/Types.antt =====
-- The types of internal/core/types.go. A `time.Duration` and an `int` are integers, a `time.Time` is
-- a count of nanoseconds, and a `float64`, which is only copied, is its bit pattern. The string
-- types (ContainerRuntime, RouteOrigin, DeployTransport) are texts, as any text can stand there.
use domux.Prelude.{ℕ, Bool, List, ◌*◌}
use domux.Prelude.Int.{ℤ, pos}
use domux.Text.{Text, codes}
use domux.Mapping.{Mapping}

abbrev pub Time : Type 0
Time = ℕ

abbrev pub Duration : Type 0
Duration = ℤ

abbrev pub runtime_docker : Text
runtime_docker = codes "docker"

abbrev pub runtime_podman : Text
runtime_podman = codes "podman"

abbrev pub origin_local_docker : Text
origin_local_docker = codes "local_docker"

abbrev pub origin_remote_agent : Text
origin_remote_agent = codes "remote_agent"

abbrev pub origin_custom_app : Text
origin_custom_app = codes "custom_app"

abbrev pub transport_local : Text
transport_local = codes "local"

abbrev pub transport_agent : Text
transport_agent = codes "agent"

abbrev pub transport_ssh : Text
transport_ssh = codes "ssh"

abbrev pub default_ddns_ttl : ℤ
default_ddns_ttl = pos 300

-- 20 * 24 * time.Hour, in nanoseconds
abbrev pub default_certificate_renew_before : Duration
default_certificate_renew_before = pos (20 * 24 * 3600 * 1_000_000_000)

abbrev pub status_online : Text
status_online = codes "online"

abbrev pub status_offline : Text
status_offline = codes "offline"

pub record DdnsZoneConfig : Type 0 where
  pub enabled : Bool
  pub provider_refs : List Text
  pub ipv4 : Bool
  pub ipv6 : Bool
  pub wildcard : Bool
  pub ttl : ℤ

pub record CertificateBundlePolicy : Type 0 where
  pub name : Text
  pub domains : List Text
  pub renew_before : Duration
  pub deploy_targets : List Text

pub record CertificatePolicy : Type 0 where
  pub enabled : Bool
  pub email : Text
  pub dns_provider : Text
  pub renew_before : Duration
  pub deploy_targets : List Text
  pub bundles : List CertificateBundlePolicy

pub record ManagedZone : Type 0 where
  pub name : Text
  pub domain : Text
  pub default : Bool
  pub wildcard : Bool
  pub ddns : DdnsZoneConfig
  pub certificate : CertificatePolicy

pub record CertificatePlan : Type 0 where
  pub name : Text
  pub domains : List Text
  pub renew_before : Duration
  pub deploy_targets : List Text

pub record DdnsProviderConfig : Type 0 where
  pub ref : Text
  pub type : Text
  pub options : Mapping Text

pub record CustomApp : Type 0 where
  pub name : Text
  pub icon : Text
  pub domain : Text
  pub zone : Text
  pub subdomain : Text
  pub exit_node : Text
  pub target_url : Text

pub record RuntimeSource : Type 0 where
  pub display_name : Text
  pub runtime : Text
  pub endpoint : Text
  pub network : Text

pub record SystemResources : Type 0 where
  pub cpu_percent : ℕ
  pub memory_percent : ℕ
  pub disk_percent : ℕ
  pub checked_at : Time

pub record AgentNode : Type 0 where
  pub name : Text
  pub display_name : Text
  pub addr : Text
  pub runtime : Text
  pub socket_path : Text
  pub version : Text
  pub status : Text
  pub last_error : Text
  pub last_checked_at : Time
  pub resources : SystemResources

pub record ContainerSnapshot : Type 0 where
  pub id : Text
  pub name : Text
  pub image : Text
  pub runtime : Text
  pub running : Bool
  pub state : Text
  pub host_network : Bool
  pub labels : Mapping Text
  pub networks : Mapping Text
  pub exposed_ports : List ℤ
  pub published_ports : List (ℤ × ℤ)

pub record ContainerRef : Type 0 where
  pub id : Text
  pub name : Text
  pub image : Text
  pub source : Text
  pub runtime : Text

pub record DiscoveredRoute : Type 0 where
  pub id : Text
  pub name : Text
  pub icon : Text
  pub domain : Text
  pub zone : Text
  pub subdomain : Text
  pub host : Text
  pub source : Text
  pub exit_node : Text
  pub origin : Text
  pub runtime : Text
  pub target_url : Text
  pub proxy_url : Text
  pub network : Text
  pub container : ContainerRef

pub record Application : Type 0 where
  pub id : Text
  pub name : Text
  pub icon : Text
  pub domain : Text
  pub zone : Text
  pub subdomain : Text
  pub host : Text
  pub entry_url : Text
  pub source : Text
  pub exit_node : Text
  pub origin : Text
  pub runtime : Text
  pub target_url : Text
  pub status : Text
  pub reason : Text
  pub container : ContainerRef

pub record DdnsSyncState : Type 0 where
  pub domain : Text
  pub zone : Text
  pub provider : Text
  pub host : Text
  pub record_type : Text
  pub value : Text
  pub status : Text
  pub error : Text
  pub synced_at : Time

pub record CertificateBundle : Type 0 where
  pub name : Text
  pub domain : Text
  pub zone : Text
  pub domains : List Text
  pub deploy_targets : List Text
  pub cert_path : Text
  pub key_path : Text
  pub not_after : Time

pub record AgentDeployBinding : Type 0 where
  pub node : Text

pub record SshDeployTargetConfig : Type 0 where
  pub addr : Text
  pub user : Text
  pub port : ℤ
  pub private_key_path : Text

-- The field `local` holds an empty struct and is left out.
pub record DeployTarget : Type 0 where
  pub name : Text
  pub transport : Text
  pub agent : AgentDeployBinding
  pub ssh : SshDeployTargetConfig
  pub cert_path : Text
  pub key_path : Text
  pub reload_command : Text

pub record DeployRun : Type 0 where
  pub target : Text
  pub bundle : Text
  pub status : Text
  pub message : Text
  pub started_at : Time
  pub finished_at : Time

pub record JobRun : Type 0 where
  pub name : Text
  pub status : Text
  pub message : Text
  pub started_at : Time
  pub finished_at : Time
