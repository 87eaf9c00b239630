-- ===== src/Config/Checks/Coherent.antt =====
-- What it means that the sections of a configuration fit together, stated without the loops and the
-- sets of Validate.
use domux.Prelude.{
  ℕ, suc, ◌≡◌, ◌⊎◌, ◌≤◌, true, false, Option, none, some, List, [], ◌∷◌, map, if◌then◌else◌, All,
}
use domux.Prelude.Result.{ok}
use domux.Text.{Text, ◌==◌, trim_space}
use domux.Core.Types.{
  ManagedZone, CertificatePlan, CustomApp, DdnsProviderConfig, AgentNode, DeployTarget,
  transport_agent,
}
use domux.Core.Names.{elem, Distinct}
use domux.Core.Zone.{certificate_plans}
use domux.Providers.Registry.{Registry, exists, validate_updater, validate_challenge}
use domux.Config.{Config}
use domux.Config.File.{app_key}
use domux.Config.Checks.Apps.{app_host}

abbrev pub refs_of : List DdnsProviderConfig → List Text
refs_of = map (λ (p : DdnsProviderConfig). p.ref)

abbrev pub agent_names : List AgentNode → List Text
agent_names = map (λ (n : AgentNode). n.name)

abbrev pub target_names : List DeployTarget → List Text
target_names = map (λ (t : DeployTarget). t.name)

abbrev pub domains_of : List ManagedZone → List Text
domains_of = map (λ (z : ManagedZone). z.domain)

abbrev pub app_names : List CustomApp → List Text
app_names = map (λ (a : CustomApp). a.name)

-- the zone of a domain
unfoldable pub zone_at : Text → List ManagedZone → Option ManagedZone
zone_at domain [] = none
zone_at domain (z ∷ zones) = if z.domain == domain then some z else zone_at domain zones

-- the hosts of the apps that have a zone
unfoldable pub app_hosts : List ManagedZone → List CustomApp → List Text
unfolding zone_at app_key
app_hosts zones [] = []
app_hosts zones (a ∷ apps) = elim (zone_at (app_key a) zones) [
  | some z ↦ app_host a z ∷ app_hosts zones apps
  | none ↦ app_hosts zones apps
]

unfoldable pub count_defaults : List ManagedZone → ℕ
count_defaults [] = 0
count_defaults (z ∷ zones) = if z.default then suc (count_defaults zones) else count_defaults zones

abbrev pub Known : List Text → List Text → Type 0
Known names = All (λ x. elem x names ≡ true)

-- The zone refers to what there is: its providers, and the targets of its certificates.
pub record IsPlaced (providers targets : List Text) (z : ManagedZone) : Type 0 where
  pub references : Known providers z.ddns.provider_refs
  pub certificate :
      (z.certificate.enabled ≡ false) ⊎ (elem z.certificate.dns_provider providers ≡ true)
  pub plans : List CertificatePlan
  pub planned : certificate_plans z ≡ ok plans
  pub delivered : All (λ (p : CertificatePlan). Known targets p.deploy_targets) plans

module _ {Challenge : Type 0} (registry : Registry Challenge) where
  -- A provider that the registry can make
  pub record IsOffered (p : DdnsProviderConfig) : Type 0 where
    pub known : exists p.type registry ≡ true
    pub updater : validate_updater p.type p.options registry ≡ none
    pub challenge : validate_challenge p.type p.options registry ≡ none

  pub record IsCoherent (zones : List ManagedZone) (c : Config) : Type 0 where
    pub providers : Distinct (refs_of c.ddns_providers)
    pub offered : All IsOffered c.ddns_providers
    pub agents : Distinct (agent_names c.agents)
    pub targets : Distinct (target_names c.deploy_targets)
    pub nodes :
        All
          (λ (t : DeployTarget).
            ((t.transport == transport_agent) ≡ false)
            ⊎ (elem t.agent.node (agent_names c.agents) ≡ true))
          c.deploy_targets
    pub domains : Distinct (domains_of zones)
    pub placed : All (IsPlaced (refs_of c.ddns_providers) (target_names c.deploy_targets)) zones
    pub default : count_defaults zones ≤ 1
    pub apps : Distinct (app_names c.apps)
    pub homes : All (λ (a : CustomApp). elem (app_key a) (domains_of zones) ≡ true) c.apps
    pub exits :
        All
          (λ (a : CustomApp).
            (trim_space a.exit_node ≡ []) ⊎ (elem a.exit_node (agent_names c.agents) ≡ true))
          c.apps
    pub hosts : Distinct (app_hosts zones c.apps)
