-- ===== src/Core/Bundles/Targets.antt =====
-- The deploy targets that DeployTarget.Validate accepts (internal/core/types.go).
use domux.Prelude.{◌≡◌, ◌≢◌, ◌↔◌, none, [], arith, ◌⊎◌}
use domux.Text.Equality.{eq_iff}
use domux.Core.Types.{DeployTarget, transport_local, transport_agent, transport_ssh}
use domux.Core.Bundles.{validate_target}

-- What the transport of a target needs.
abbrev pub HasTransport : DeployTarget → Type 0
HasTransport t =
    (t.transport ≡ transport_local)
    ⊎ ((t.transport ≡ transport_agent) × (t.agent.node ≢ []))
    ⊎ ((t.transport ≡ transport_ssh) × (t.ssh.addr ≢ []) × (t.ssh.user ≢ []))

-- DeployTarget.Validate accepts a target exactly when it has a name and both paths, and a transport that
-- is known and has what it needs: a node for an agent, an address and a user for SSH.
pub validate_target_iff :
    {ParseError : Type 0} (t : DeployTarget)
    → (validate_target {ParseError = ParseError} t ≡ none)
      ↔ ((t.name ≢ []) × (t.cert_path ≢ []) × (t.key_path ≢ []) × HasTransport t)
unfolding validate_target
validate_target_iff {ParseError} t = ground (
  arith,
  eq_iff t.name [],
  eq_iff t.cert_path [],
  eq_iff t.key_path [],
  eq_iff t.transport transport_local,
  eq_iff t.transport transport_agent,
  eq_iff t.transport transport_ssh,
  eq_iff t.agent.node [],
  eq_iff t.ssh.addr [],
  eq_iff t.ssh.user [],
)
