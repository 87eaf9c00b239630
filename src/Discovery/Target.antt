-- ===== src/Discovery/Target.antt =====
-- Where a container is reached: ResolveTarget and what it calls, in
-- internal/discovery/docker/discovery.go.
pub mod Port
pub mod Networks
use domux.Prelude.{
  ℕ, Bool, true, false, not, ◌&&◌, ◌||◌, Option, none, some, List, [], ◌∷◌, ◌++◌, if◌then◌else◌,
  get_or, is_empty,
}
use domux.Prelude.Int.{ℤ, pos, is_zero, is_positive, le_int, int_eq}
use domux.Prelude.Result.{Result, ok, err, ◌>>=◌}
use domux.Text.{Text, codes, ◌==◌, trim_space, contains, le_text}
use domux.Text.Decimal.{itoa}
use domux.Mapping.{Mapping, get, keys}
use domux.Sort.{sort}
use domux.Core.Types.{RuntimeSource, ContainerSnapshot, runtime_podman}
use domux.Core.Names.{elem}
use domux.Core.Runtime.{Env, runtime_or_default}
use domux.Discovery.Labels.{RouteIntent}

pub data TargetError : Type 0 where
  no_backend_port no_valid_backend_port no_network_address : TargetError
  network_not_found : Text → TargetError

-- The first valid port of the sorted ones
unfoldable pub first_positive : List ℤ → Option ℤ
first_positive [] = none
first_positive (p ∷ ps) = if is_positive p then some p else first_positive ps

-- resolvePort
unfoldable pub resolve_port : ContainerSnapshot → RouteIntent → Result TargetError ℤ
resolve_port snapshot intent =
    if is_positive intent.port
    then ok intent.port
    else if is_empty snapshot.exposed_ports
    then err no_backend_port
    else elim (first_positive (sort le_int snapshot.exposed_ports)) [
      | some port ↦ ok port
      | none ↦ err no_valid_backend_port
    ]

-- composeProjectName
unfoldable pub compose_project_name : Mapping Text → Text
compose_project_name labels =
    let docker = trim_space (get_or (get (codes "com.docker.compose.project") labels) []) in
    let podman = trim_space (get_or (get (codes "io.podman.compose.project") labels) []) in
    if not (docker == []) then docker else podman

-- The closure `add` of networkCandidates; `seen` holds what `out` does.
unfoldable pub add_name : Text → List Text → List Text
add_name raw out =
    let name = trim_space raw in
    if name == [] then out else if elem name out then out else out ++ name ∷ []

-- The closure `addNetwork`
unfoldable pub add_network : Text → Text → List Text → List Text
add_network project name out =
    if not (project == []) && not (contains (codes "_") name)
    then add_name (project ++ b'_' ∷ name) (add_name name out)
    else add_name name out

unfoldable pub add_all : List Text → List Text → List Text
add_all [] out = out
add_all (name ∷ names) out = add_all names (add_name name out)

-- networkCandidates
unfoldable pub network_candidates : RuntimeSource → ContainerSnapshot → RouteIntent → List Text
network_candidates source snapshot intent =
    let project = compose_project_name snapshot.labels in
    let wanted = add_network project intent.network [] in
    let named =
      if not (source.network == intent.network)
      then add_network project source.network wanted
      else wanted in
    add_all (sort le_text (keys snapshot.networks)) named

-- The loop of resolveHost: the first candidate with an address.
unfoldable pub first_address : Mapping Text → List Text → Option (Text × Text)
first_address networks [] = none
first_address networks (candidate ∷ rest) =
    let ip = trim_space (get_or (get candidate networks) []) in
    if not (ip == []) then some (ip, candidate) else first_address networks rest

unfoldable pub host_error : RuntimeSource → ContainerSnapshot → RouteIntent → TargetError
host_error source snapshot intent =
    let asked = trim_space intent.network in
    let wanted = if asked == [] then trim_space source.network else asked in
    if is_empty snapshot.networks
    then no_network_address
    else if not (wanted == [])
    then network_not_found wanted
    else no_network_address

-- resolveHost: the address and the network that has it.
unfoldable pub resolve_host :
    RuntimeSource → ContainerSnapshot → RouteIntent → Result TargetError (Text × Text)
resolve_host source snapshot intent =
    elim (first_address snapshot.networks (network_candidates source snapshot intent)) [
      | some found ↦ ok found
      | none ↦ err (host_error source snapshot intent)
    ]

-- snapshot.PublishedPorts[port]
unfoldable pub published_at : ℤ → List (ℤ × ℤ) → Option ℤ
published_at port [] = none
published_at port ((private_port, public_port) ∷ ports) =
    if int_eq private_port port then some public_port else published_at port ports

-- hasContainerMarker, over the test of os.Stat for an error
unfoldable pub has_container_marker : (Text → Bool) → Bool
has_container_marker exists =
    exists (codes "/.dockerenv")
    || exists (codes "/.containerenv")
    || exists (codes "/run/.containerenv")

unfoldable pub published_target_host : Bool → Bool → Text
published_target_host is_podman in_container =
    if is_podman && in_container then codes "host.containers.internal" else codes "127.0.0.1"

module _ (env : Env) (exists : Text → Bool) (http_url : Text → Text) (source : RuntimeSource)
    (snapshot : ContainerSnapshot) (intent : RouteIntent) where
  -- resolvePublishedTarget
  unfoldable pub resolve_published_target : ℤ → Option (Text × ℤ)
  resolve_published_target private_port =
      elim (published_at private_port snapshot.published_ports) [
        | none ↦ none
        | some published ↦
            if is_zero published
            then none
            else if runtime_or_default env source == runtime_podman
            then some (published_target_host true (has_container_marker exists), published)
            else if is_empty snapshot.networks
            then some (published_target_host false (has_container_marker exists), published)
            else none
      ]

  -- resolveTargetAddress, behind the port: the host, the port and the network.
  unfoldable pub address_at : ℤ → Result TargetError (Text × ℤ × Text)
  unfolding resolve_published_target
  address_at port =
      if snapshot.host_network
      then ok (codes "127.0.0.1", port, codes "host")
      else elim (resolve_published_target port) [
        | some (host, published) ↦ ok (host, published, codes "published")
        | none ↦ do (host, network) ← resolve_host source snapshot intent; ok (host, port, network)
      ]

  unfoldable pub resolve_target_address : Result TargetError (Text × ℤ × Text)
  unfolding address_at
  resolve_target_address = do port ← resolve_port snapshot intent; address_at port

  -- ResolveTarget: the network and the URL, rendered by net/url with the scheme http.
  unfoldable pub resolve_target : Result TargetError (Text × Text)
  unfolding resolve_target_address
  resolve_target = do
    (host, port, network) ← resolve_target_address
    ok (network, http_url (host ++ b':' ∷ itoa port))
