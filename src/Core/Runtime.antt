-- ===== src/Core/Runtime.antt =====
-- RuntimeSource in internal/core/types.go: the container runtime and its endpoint, with defaults
-- that depend on the environment of the process.
pub mod Normal
use domux.Prelude.{ℕ, Bool, not, ◌||◌, Option, none, some, List, [], ◌∷◌, ◌++◌, if◌then◌else◌}
use domux.Prelude.Int.{ℤ, is_positive}
use domux.Text.{Text, codes, ◌==◌, trim_space, trim_prefix, has_prefix, contains, to_lower}
use domux.Core.Types.{RuntimeSource, runtime_docker, runtime_podman}
use domux.Core.Names.{compact_names}

-- os.Getenv (empty where a variable is not set), filepath.EvalSymlinks (none for an error), os.Getuid,
-- strconv.Itoa, filepath.Join and the table of lower-case letters.
pub record Env : Type 0 where
  pub getenv : Text → Text
  pub eval_symlinks : Text → Option Text
  pub uid : ℤ
  pub itoa : ℤ → Text
  pub join_path : List Text → Text
  pub unicode_lower : ℕ → ℕ

abbrev pub unix_scheme : Text
unix_scheme = codes "unix://"

abbrev pub docker_socket : Text
docker_socket = codes "/var/run/docker.sock"

-- ContainerRuntime.Validate
unfoldable pub is_supported_runtime : Text → Bool
is_supported_runtime r = r == runtime_docker || r == runtime_podman

unfoldable pub normalize_endpoint : Text → Text
normalize_endpoint raw =
    let endpoint = trim_space raw in
    if endpoint == []
    then []
    else if has_prefix unix_scheme endpoint || contains (codes "://") endpoint
    then endpoint
    else if has_prefix (codes "/") endpoint
    then unix_scheme ++ endpoint
    else endpoint

unfoldable pub default_runtime : Text → Text
default_runtime runtime = if runtime == [] then runtime_docker else runtime

pub data RuntimeError : Type 0 where
  unsupported_runtime : Text → RuntimeError
  endpoint_required : RuntimeError

module _ (env : Env) where
  -- inferRuntimeFromPath; the empty text for no answer
  unfoldable pub infer_runtime_from_path : Text → Text
  infer_runtime_from_path raw =
      let value = to_lower env.unicode_lower (trim_space raw) in
      if value == []
      then []
      else if contains (codes "podman.sock") value || contains (codes "/podman/") value
      then runtime_podman
      else []

  -- what is inferred from the target of a Unix socket's path
  infer_runtime_from_target : Text → Text
  infer_runtime_from_target endpoint =
      if has_prefix unix_scheme endpoint
      then elim (env.eval_symlinks (trim_prefix unix_scheme endpoint)) [
        | some resolved ↦ infer_runtime_from_path resolved
        | none ↦ []
      ]
      else []

  unfoldable pub infer_runtime_from_endpoint : Text → Text
  unfolding infer_runtime_from_target
  infer_runtime_from_endpoint raw =
      let endpoint = normalize_endpoint raw in
      let inferred = infer_runtime_from_target endpoint in
      if inferred == []
      then infer_runtime_from_path (to_lower env.unicode_lower (trim_space endpoint))
      else inferred

  -- RuntimeOrDefault
  unfoldable pub runtime_or_default : RuntimeSource → Text
  runtime_or_default s =
      let runtime = trim_space s.runtime in
      let inferred = infer_runtime_from_endpoint s.endpoint in
      let of_container_host = infer_runtime_from_endpoint (env.getenv (codes "CONTAINER_HOST")) in
      let of_docker_host = infer_runtime_from_endpoint (env.getenv (codes "DOCKER_HOST")) in
      if not (runtime == [])
      then runtime
      else if not (inferred == [])
      then inferred
      else if not (env.getenv (codes "PODMAN_SOCKET") == [])
      then runtime_podman
      else if not (of_container_host == [])
      then of_container_host
      else if not (of_docker_host == [])
      then of_docker_host
      else runtime_docker

  unfoldable pub podman_user_socket_path : Text
  podman_user_socket_path =
      let runtime_dir = trim_space (env.getenv (codes "XDG_RUNTIME_DIR")) in
      if not (runtime_dir == [])
      then env.join_path (runtime_dir ∷ codes "podman" ∷ codes "podman.sock" ∷ [])
      else if is_positive env.uid
      then env.join_path
          (codes "/run/user" ∷ env.itoa env.uid ∷ codes "podman" ∷ codes "podman.sock" ∷ [])
      else []

  unfoldable pub runtime_endpoint_candidates : Text → List Text
  runtime_endpoint_candidates runtime =
      if default_runtime runtime == runtime_podman
      then compact_names (
          trim_space (env.getenv (codes "PODMAN_SOCKET"))
          ∷ trim_space (env.getenv (codes "CONTAINER_HOST"))
          ∷ trim_space (env.getenv (codes "DOCKER_HOST"))
          ∷ trim_space (env.getenv (codes "DOCKER_SOCKET"))
          ∷ podman_user_socket_path
          ∷ codes "/run/podman/podman.sock"
          ∷ docker_socket
          ∷ [])
      else compact_names (
          trim_space (env.getenv (codes "DOCKER_HOST"))
          ∷ trim_space (env.getenv (codes "DOCKER_SOCKET"))
          ∷ docker_socket
          ∷ [])

  -- The loop of DefaultRuntimeEndpoint
  unfoldable pub first_endpoint : List Text → Text
  first_endpoint [] = []
  first_endpoint (candidate ∷ rest) =
      let endpoint = normalize_endpoint candidate in
      if endpoint == [] then first_endpoint rest else endpoint

  unfoldable pub default_runtime_endpoint : Text → Text
  unfolding first_endpoint
  default_runtime_endpoint runtime =
      first_endpoint (runtime_endpoint_candidates (default_runtime runtime))

  unfoldable pub default_runtime_socket_path : Text → Text
  default_runtime_socket_path runtime =
      let endpoint = default_runtime_endpoint runtime in
      if has_prefix unix_scheme endpoint then trim_prefix unix_scheme endpoint else []

  -- EndpointOrDefault
  unfoldable pub endpoint_or_default : RuntimeSource → Text
  endpoint_or_default s =
      let endpoint = normalize_endpoint (trim_space s.endpoint) in
      if endpoint == [] then default_runtime_endpoint (runtime_or_default s) else endpoint

  -- Normalized
  unfoldable pub normalized : RuntimeSource → RuntimeSource
  normalized s =
      let s' = record s { runtime = runtime_or_default s } in
      record {
        display_name = trim_space s.display_name;
        runtime = runtime_or_default s;
        endpoint = endpoint_or_default s';
        network = trim_space s.network;
      }

  -- RuntimeSource.Validate
  unfoldable pub validate_source : RuntimeSource → Option RuntimeError
  validate_source s =
      if not (is_supported_runtime (runtime_or_default s))
      then some (unsupported_runtime (runtime_or_default s))
      else if endpoint_or_default s == []
      then some endpoint_required
      else none
