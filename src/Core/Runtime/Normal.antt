-- ===== src/Core/Runtime/Normal.antt =====
-- RuntimeSource.Normalized and the defaults that it fills in.
use domux.Prelude.{
  ◌≡◌, ◌≢◌, refl, ap, ◌∙◌, true, ◌⊎◌, Option-cases, if◌then◌else◌, none, some, List, [], ◌∷◌, ◌++◌,
  arith, Bool-cases, inl, inr, map,
}
use domux.Text.{
  Text, codes, ◌==◌, trim_space, trim_prefix, has_prefix, contains, to_lower, is_space,
}
use domux.Text.Equality.{eq_iff, ==_refl}
use domux.Text.Affix.{has_prefix-append}
use domux.Text.Trim.{trim_space-trim_space, trim_space-append}
use domux.Core.Types.{RuntimeSource, runtime_docker, runtime_podman}
use domux.Core.Names.{elem, compact_names}
use domux.Core.Names.Compact.{compact_names-Distinct}
use domux.Core.Runtime.{
  Env, unix_scheme, docker_socket, normalize_endpoint, infer_runtime_from_path,
  infer_runtime_from_endpoint, infer_runtime_from_target, runtime_or_default, first_endpoint,
  runtime_endpoint_candidates, default_runtime_endpoint, default_runtime, endpoint_or_default,
  normalized, is_supported_runtime, validate_source, unsupported_runtime,
}

-- A path of a Unix socket behind its scheme is trimmed as the path is.
trim_scheme : trim_space (codes "unix:/") ≡ codes "unix:/"
unfolding trim_space
trim_scheme = refl

trim_unix : (e : Text) → trim_space e ≡ e → trim_space (unix_scheme ++ e) ≡ unix_scheme ++ e
unfolding is_space
trim_unix e h = trim_space-append (codes "unix:/") e b'/' (cc) trim_scheme h refl

pub normalize_endpoint-normalize_endpoint :
    (raw : Text) → normalize_endpoint (normalize_endpoint raw) ≡ normalize_endpoint raw
unfolding normalize_endpoint
normalize_endpoint-normalize_endpoint raw =
    let e = trim_space raw in
    ground (
      arith,
      trim_space-trim_space raw,
      trim_unix e (trim_space-trim_space raw),
      has_prefix-append unix_scheme e,
      eq_iff e [],
      eq_iff (unix_scheme ++ e) [],
    )

trim_docker : trim_space runtime_docker ≡ runtime_docker
unfolding trim_space
trim_docker = refl

trim_podman : trim_space runtime_podman ≡ runtime_podman
unfolding trim_space
trim_podman = refl

trim_docker_socket : trim_space docker_socket ≡ docker_socket
unfolding trim_space
trim_docker_socket = refl

trim_nil : trim_space [] ≡ []
unfolding trim_space
trim_nil = refl

normal_nil : normalize_endpoint (trim_space []) ≡ []
unfolding normalize_endpoint trim_space ◌==◌
normal_nil = refl

-- A normalized endpoint is trimmed and normalized.
normal_stable :
    (raw : Text) → normalize_endpoint (trim_space (normalize_endpoint raw)) ≡ normalize_endpoint raw
normal_stable raw = ap normalize_endpoint (trimmed raw) ∙ normalize_endpoint-normalize_endpoint raw
  where
    trimmed : (r : Text) → trim_space (normalize_endpoint r) ≡ normalize_endpoint r
    trimmed r =
        unfold normalize_endpoint in
        ground (
          arith,
          trim_space-trim_space r,
          trim_unix (trim_space r) (trim_space-trim_space r),
          trim_nil,
        )

module _ (env : Env) where
  path_answer :
      (p : Text)
      → (infer_runtime_from_path env p ≡ []) ⊎ (infer_runtime_from_path env p ≡ runtime_podman)
  unfolding infer_runtime_from_path
  path_answer p = ground arith

  target_answer :
      (e : Text)
      → (infer_runtime_from_target env e ≡ []) ⊎ (infer_runtime_from_target env e ≡ runtime_podman)
  unfolding infer_runtime_from_target
  target_answer e = elim (Bool-cases (has_prefix unix_scheme e)) [
    | inr other ↦ inl (ground arith)
    | inl unix ↦ elim (Option-cases (env.eval_symlinks (trim_prefix unix_scheme e))) [
      | inl failed ↦ inl (ground arith)
      | inr (p, resolved) ↦ ground (arith, path_answer p)
    ]
  ]

  endpoint_answer :
      (e : Text)
      → (infer_runtime_from_endpoint env e ≡ [])
        ⊎ (infer_runtime_from_endpoint env e ≡ runtime_podman)
  unfolding infer_runtime_from_endpoint
  endpoint_answer e =
      let n = normalize_endpoint e in
      ground (
        arith,
        target_answer n,
        path_answer (to_lower env.unicode_lower (trim_space n)),
        eq_iff (infer_runtime_from_target env n) [],
      )

  -- The runtime is always named, with no white space around it.
  pub runtime_or_default-trimmed :
      (s : RuntimeSource)
      → (trim_space (runtime_or_default env s) ≡ runtime_or_default env s)
        × (runtime_or_default env s ≢ [])
  unfolding runtime_or_default
  runtime_or_default-trimmed s =
      let of = λ (e : Text). infer_runtime_from_endpoint env e in
      ground (
        arith,
        trim_space-trim_space s.runtime,
        eq_iff (trim_space s.runtime) [],
        endpoint_answer s.endpoint,
        endpoint_answer (env.getenv (codes "CONTAINER_HOST")),
        endpoint_answer (env.getenv (codes "DOCKER_HOST")),
        eq_iff (of s.endpoint) [],
        eq_iff (of (env.getenv (codes "CONTAINER_HOST"))) [],
        eq_iff (of (env.getenv (codes "DOCKER_HOST"))) [],
        trim_docker,
        trim_podman,
      )

  -- A source that names its runtime keeps it.
  runtime_kept :
      (s : RuntimeSource)
      → trim_space s.runtime ≡ s.runtime
      → s.runtime ≢ []
      → runtime_or_default env s ≡ s.runtime
  unfolding runtime_or_default
  runtime_kept s h filled = ground (arith, eq_iff s.runtime [])

  first_endpoint_found :
      (x : Text) (xs : List Text)
      → elem x xs ≡ true
      → normalize_endpoint x ≢ []
      → first_endpoint env xs ≢ []
  unfolding first_endpoint elem
  first_endpoint_found x [] h k = cc
  first_endpoint_found x (y ∷ ys) h k =
      ground (arith, eq_iff y x, eq_iff (normalize_endpoint y) [], first_endpoint_found x ys)

  docker_socket_filled : normalize_endpoint docker_socket ≢ []
  unfolding normalize_endpoint trim_space ◌==◌ has_prefix contains
  docker_socket_filled e = cc

  kept :
      (values : List Text)
      → elem docker_socket (map trim_space values) ≡ true
      → elem docker_socket (compact_names values) ≡ true
  unfolding ◌==◌
  kept values h = (compact_names-Distinct values).2 docker_socket ∙ rw h

  docker_socket_candidate :
      (runtime : Text) → elem docker_socket (runtime_endpoint_candidates env runtime) ≡ true
  unfolding runtime_endpoint_candidates
  docker_socket_candidate runtime = elim (Bool-cases (default_runtime runtime == runtime_podman)) [
    | inl podman ↦
        rw podman
          (kept _ (unfold elem in ground (arith, trim_docker_socket, ==_refl docker_socket)))
    | inr docker ↦
        rw docker
          (kept _ (unfold elem in ground (arith, trim_docker_socket, ==_refl docker_socket)))
  ]

  -- There is always an endpoint.
  pub endpoint_or_default-ne-nil : (s : RuntimeSource) → endpoint_or_default env s ≢ []
  unfolding endpoint_or_default default_runtime_endpoint
  endpoint_or_default-ne-nil s = ground (
    arith,
    eq_iff (normalize_endpoint (trim_space s.endpoint)) [],
    first_endpoint_found docker_socket
        (runtime_endpoint_candidates env (default_runtime (runtime_or_default env s)))
        (docker_socket_candidate (default_runtime (runtime_or_default env s))) docker_socket_filled,
  )

  -- RuntimeSource.Validate refuses a source exactly when its runtime is not supported.
  pub validate_source_lem :
      (s : RuntimeSource)
      → validate_source env s ≡ (
          if is_supported_runtime (runtime_or_default env s)
          then none
          else some (unsupported_runtime (runtime_or_default env s)))
  unfolding validate_source
  validate_source_lem s =
      ground (arith, eq_iff (endpoint_or_default env s) [], endpoint_or_default-ne-nil s)

  first_endpoint_normal :
      (xs : List Text)
      → normalize_endpoint (trim_space (first_endpoint env xs)) ≡ first_endpoint env xs
  unfolding first_endpoint
  first_endpoint_normal [] = normal_nil
  first_endpoint_normal (x ∷ xs) = ground (arith, normal_stable x, first_endpoint_normal xs)

  endpoint_normal :
      (s : RuntimeSource)
      → normalize_endpoint (trim_space (endpoint_or_default env s)) ≡ endpoint_or_default env s
  unfolding endpoint_or_default default_runtime_endpoint
  endpoint_normal s = ground (
    arith,
    normal_stable (trim_space s.endpoint),
    first_endpoint_normal
        (runtime_endpoint_candidates env (default_runtime (runtime_or_default env s))),
  )

  endpoint_kept :
      (s : RuntimeSource)
      → normalize_endpoint (trim_space s.endpoint) ≡ s.endpoint
      → s.endpoint ≢ []
      → endpoint_or_default env s ≡ s.endpoint
  unfolding endpoint_or_default
  endpoint_kept s h filled = ground (arith, eq_iff s.endpoint [])

  -- Normalizing a source twice is normalizing it once.
  pub normalized-normalized :
      (s : RuntimeSource) → normalized env (normalized env s) ≡ normalized env s
  unfolding normalized
  normalized-normalized s =
      let n = normalized env s in
      let s' = record s { runtime = runtime_or_default env s } in
      let (trimmed, filled) = runtime_or_default-trimmed s in
      let same_runtime = runtime_kept n trimmed filled in
      let n' = record n { runtime = runtime_or_default env n } in
      let same_endpoint = endpoint_kept n' (endpoint_normal s') (endpoint_or_default-ne-nil s') in
      λ i. record {
        display_name = trim_space-trim_space s.display_name i;
        runtime = same_runtime i;
        endpoint = same_endpoint i;
        network = trim_space-trim_space s.network i;
      }
