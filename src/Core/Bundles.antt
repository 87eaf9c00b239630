-- ===== src/Core/Bundles.antt =====
-- The certificate bundles that the plans of the zones ask for, and the validation of the other
-- configured items, in internal/core/types.go. A copy of a slice is the same list.
pub mod Current
pub mod Targets
use domux.Prelude.{
  Bool, true, false, ◌||◌, Option, none, some, List, [], ◌∷◌, if◌then◌else◌, is_empty,
}
use domux.Prelude.Result.{Result, ok, err}
use domux.Text.{Text, ◌==◌, trim_space}
use domux.Mapping.{Mapping, get, put}
use domux.Core.Types.{
  ManagedZone, CertificatePlan, CertificateBundle, DdnsProviderConfig, CustomApp, AgentNode,
  DeployTarget, transport_local, transport_agent, transport_ssh,
}
use domux.Core.Zone.{certificate_plans}
use domux.Core.Runtime.{is_supported_runtime}

-- the loop over the plans of a zone
unfoldable pub put_plans : List CertificatePlan → Mapping (List Text) → Mapping (List Text)
put_plans [] targets = targets
put_plans (plan ∷ plans) targets = put_plans plans (put plan.name plan.deploy_targets targets)

-- what one zone adds
unfoldable pub put_zone : ManagedZone → Mapping (List Text) → Mapping (List Text)
put_zone z targets =
    if z.certificate.enabled
    then elim (certificate_plans z) [ ok plans ↦ put_plans plans targets | err e ↦ targets ]
    else targets

-- the loop over the zones
unfoldable pub put_zones : List ManagedZone → Mapping (List Text) → Mapping (List Text)
put_zones [] targets = targets
put_zones (z ∷ zones) targets = put_zones zones (put_zone z targets)

unfoldable pub certificate_plan_targets : List ManagedZone → Mapping (List Text)
certificate_plan_targets zones = put_zones zones []

-- the loop of ApplyCertificatePlanTargets
unfoldable pub apply_targets : Mapping (List Text) → List CertificateBundle → List CertificateBundle
apply_targets targets [] = []
apply_targets targets (b ∷ bundles) = elim (get b.name targets) [
  | some found ↦ record b { deploy_targets = found } ∷ apply_targets targets bundles
  | none ↦ b ∷ apply_targets targets bundles
]

unfoldable pub apply_certificate_plan_targets :
    List ManagedZone → List CertificateBundle → List CertificateBundle
apply_certificate_plan_targets zones bundles =
    apply_targets (certificate_plan_targets zones) bundles

-- the loop of CurrentCertificateBundles
unfoldable pub current_targets :
    Mapping (List Text) → List CertificateBundle → List CertificateBundle
current_targets targets [] = []
current_targets targets (b ∷ bundles) = elim (get b.name targets) [
  | some found ↦ record b { deploy_targets = found } ∷ current_targets targets bundles
  | none ↦ current_targets targets bundles
]

unfoldable pub current_certificate_bundles :
    List ManagedZone → List CertificateBundle → List CertificateBundle
current_certificate_bundles zones bundles = current_targets (certificate_plan_targets zones) bundles

-- The errors of the validations, with what their messages quote.
pub data ItemError (ParseError : Type 0) : Type 0 where
  missing_name : ItemError ParseError
  missing : Text → ItemError ParseError
  invalid_url : Text → ParseError → ItemError ParseError
  incomplete_url : Text → ItemError ParseError
  unsupported : Text → Text → ItemError ParseError

module _ {ParseError : Type 0} where
  -- DDNSProviderConfig.Validate
  unfoldable pub validate_provider : DdnsProviderConfig → Option (ItemError ParseError)
  validate_provider p =
      if p.ref == [] then some missing_name else if p.type == [] then some (missing p.ref) else none

  -- CustomApp.Validate, over the parser of URLs, which gives the scheme and the host
  unfoldable pub validate_app :
      (Text → Result ParseError (Text × Text)) → CustomApp → Option (ItemError ParseError)
  validate_app parse a =
      let domain = if trim_space a.domain == [] then trim_space a.zone else a.domain in
      if trim_space a.name == []
      then some missing_name
      else if trim_space domain == []
      then some (missing a.name)
      else if trim_space a.subdomain == []
      then some (missing a.name)
      else if trim_space a.target_url == []
      then some (missing a.name)
      else elim (parse (trim_space a.target_url)) [
        | err e ↦ some (invalid_url a.name e)
        | ok (scheme, host) ↦
            if scheme == [] || host == [] then some (incomplete_url a.name) else none
      ]

  -- AgentNode.Validate
  unfoldable pub validate_agent : AgentNode → Option (ItemError ParseError)
  validate_agent n =
      if n.name == []
      then some missing_name
      else if n.addr == []
      then some (missing n.name)
      else if is_supported_runtime n.runtime
      then none
      else some (unsupported n.name n.runtime)

  -- CertificateBundle.Validate
  unfoldable pub validate_bundle : CertificateBundle → Option (ItemError ParseError)
  validate_bundle b =
      let domain = if trim_space b.domain == [] then trim_space b.zone else b.domain in
      if b.name == []
      then some missing_name
      else if domain == []
      then some (missing b.name)
      else if b.cert_path == [] || b.key_path == []
      then some (missing b.name)
      else if is_empty b.domains
      then some (missing b.name)
      else none

  -- DeployTarget.Validate
  unfoldable pub validate_target : DeployTarget → Option (ItemError ParseError)
  validate_target t =
      if t.name == []
      then some missing_name
      else if t.cert_path == [] || t.key_path == []
      then some (missing t.name)
      else if t.transport == transport_local
      then none
      else if t.transport == transport_agent
      then (if t.agent.node == [] then some (missing t.name) else none)
      else if t.transport == transport_ssh
      then (if t.ssh.addr == [] || t.ssh.user == [] then some (missing t.name) else none)
      else some (unsupported t.name t.transport)
