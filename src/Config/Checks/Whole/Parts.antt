-- ===== src/Config/Checks/Whole/Parts.antt =====
-- The parts of Validate that report nothing, and the sets that they leave.
use domux.Prelude.{
  ℕ, ◌≡◌, ◌⊎◌, ◌≤◌, refl, sym, ◌∙◌, true, false, ◌||◌, ltb, Option, none, some, List, [], ◌∷◌,
  arith, inl, inr, if◌then◌else◌, is_some, Bool-cases, Option-cases, All, All-map,
}
use domux.Text.{Text, ◌==◌}
use domux.Text.Equality.{eq_iff}
use domux.Mapping.{Mapping, get, put, get-put}
use domux.Core.Types.{
  ManagedZone, CertificatePlan, AgentNode, DdnsProviderConfig, DeployTarget, transport_agent,
}
use domux.Core.Names.{elem, Distinct}
use domux.Core.Bundles.{validate_provider, validate_agent, validate_target}
use domux.Providers.Registry.{Registry, exists, validate_updater, validate_challenge}
use domux.Config.Checks.{
  ConfigError, scan, list_of, check_agent, check_target, check_target_agents, provider_error,
  check_provider, check_provider_options, put_refs, provider_refs, invalid, duplicate_agent,
  duplicate_target, duplicate_provider, invalid_updater, invalid_challenge, several_defaults,
}
use domux.Config.Checks.Scans.{
  Fresh-Distinct, append-nil_left, append-nil_right, scan-admit, elem-scan,
}
use domux.Config.Checks.Coherent.{
  IsOffered, IsPlaced, Known, refs_of, agent_names, target_names, domains_of, zone_at,
}

put_refs_lem :
    (k : Text) (ps : List DdnsProviderConfig) (refs : Mapping DdnsProviderConfig)
    → is_some (get k (put_refs ps refs)) ≡ (is_some (get k refs) || elem k (refs_of ps))
unfolding put_refs elem
put_refs_lem k [] refs = ground arith
put_refs_lem k (p ∷ ps) refs = ground (
  arith,
  put_refs_lem k ps (put p.ref p refs),
  get-put p.ref k p refs,
  eq_iff p.ref k,
  eq_iff k p.ref,
)

pub provider_refs-elem :
    (ps : List DdnsProviderConfig) (k : Text)
    → is_some (get k (provider_refs ps)) ≡ elem k (refs_of ps)
unfolding provider_refs get
provider_refs-elem ps k = put_refs_lem k ps []

pub zone_at-elem :
    (k : Text) (zones : List ManagedZone) → is_some (zone_at k zones) ≡ elem k (domains_of zones)
unfolding zone_at elem
zone_at-elem k [] = refl
zone_at-elem k (z ∷ zones) =
    ground (arith, zone_at-elem k zones, eq_iff z.domain k, eq_iff k z.domain)

list_of-nil : {D E : Type 0} (f : D → E) (o : Option D) → list_of f o ≡ [] → o ≡ none
list_of-nil f none h = refl
list_of-nil f (some e) h = absurd (cc h)

module _ {ParseError : Type 0} where
  pub check_target_agents-nil :
      (agents : List Text) (ts : List DeployTarget)
      → check_target_agents {ParseError = ParseError} agents ts ≡ []
      → All
          (λ (t : DeployTarget).
            ((t.transport == transport_agent) ≡ false) ⊎ (elem t.agent.node agents ≡ true))
          ts
  unfolding check_target_agents
  check_target_agents-nil agents [] h = tt
  check_target_agents-nil agents (t ∷ ts) h = elim (Bool-cases (t.transport == transport_agent)) [
    | inr other ↦ (inl other, check_target_agents-nil agents ts (rw other at h))
    | inl remote ↦ elim (Bool-cases (elem t.agent.node agents)) [
      | inl there ↦ (inr there, check_target_agents-nil agents ts (rw (remote, there) at h))
      | inr nowhere ↦ absurd (ground (arith, h, remote, nowhere))
    ]
  ]

  module _ {Challenge : Type 0} (registry : Registry Challenge) where
    provider_error-exists :
        (p : DdnsProviderConfig)
        → provider_error {ParseError = ParseError} registry p ≡ none
        → exists p.type registry ≡ true
    provider_error-exists p h = ground (
      arith,
      h,
      Option-cases (validate_provider {ParseError = ParseError} p),
      Bool-cases (exists p.type registry),
    )

    pub check_provider_options-nil :
        (ps : List DdnsProviderConfig)
        → All (λ p. provider_error {ParseError = ParseError} registry p ≡ none) ps
        → check_provider_options {ParseError = ParseError} registry ps ≡ []
        → All (IsOffered registry) ps
    unfolding check_provider_options
    check_provider_options-nil [] ok h = tt
    check_provider_options-nil (p ∷ ps) ok h =
        let there = provider_error-exists p ok.0 in
        let parts = rw there at h in
        let first : List (ConfigError ParseError) =
          list_of (invalid_updater p.ref) (validate_updater p.type p.options registry) in
        let second : List (ConfigError ParseError) =
          list_of (invalid_challenge p.ref) (validate_challenge p.type p.options registry) in
        let later = append-nil_right first _ parts in
        (
          record {
            known = there;
            updater = list_of-nil (invalid_updater p.ref) _ (append-nil_left first _ parts);
            challenge = list_of-nil (invalid_challenge p.ref) _ (append-nil_left second _ later);
          },
          check_provider_options-nil ps ok.1 (append-nil_right second _ later),
        )

Known-same :
    (xs ys : List Text) (same : (k : Text) → elem k xs ≡ elem k ys) (ks : List Text)
    → Known xs ks
    → Known ys ks
Known-same xs ys same ks h = All-map (λ k there. sym (same k) ∙ there) ks h

pub IsPlaced-same :
    (providers xs ys : List Text) (same : (k : Text) → elem k xs ≡ elem k ys) (z : ManagedZone)
    → IsPlaced providers xs z
    → IsPlaced providers ys z
IsPlaced-same providers xs ys same z p = record {
  references = p.references;
  certificate = p.certificate;
  plans = p.plans;
  planned = p.planned;
  delivered =
      All-map (λ (plan : CertificatePlan) there. Known-same xs ys same plan.deploy_targets there)
        p.plans p.delivered;
}

module _ {ParseError : Type 0} where
  pub at_most_one :
      (m n : ℕ)
      → m ≡ n
      → ◌≡◌ {A = List (ConfigError ParseError)} (if ltb 1 m then several_defaults ∷ [] else []) []
      → n ≤ 1
  at_most_one m n same h = ground (arith, h)

  pub scan-agents :
      (ns : List AgentNode)
      → (scan (check_agent {ParseError = ParseError}) [] ns).0 ≡ []
      → Distinct (agent_names ns)
        × ((k : Text)
            → elem k (scan (check_agent {ParseError = ParseError}) [] ns).1
              ≡ elem k (agent_names ns))
  unfolding check_agent elem
  scan-agents ns h =
      let bad = λ (n : AgentNode). invalid {ParseError = ParseError} (validate_agent n) in
      let twice : AgentNode → ConfigError ParseError = λ n. duplicate_agent n.name in
      let name = λ (n : AgentNode). n.name in
      (
        Fresh-Distinct _ (scan-admit bad twice name [] ns h).0,
        λ k. elem-scan bad twice name k [] ns h,
      )

  pub scan-targets :
      (ts : List DeployTarget)
      → (scan (check_target {ParseError = ParseError}) [] ts).0 ≡ []
      → Distinct (target_names ts)
        × ((k : Text)
            → elem k (scan (check_target {ParseError = ParseError}) [] ts).1
              ≡ elem k (target_names ts))
  unfolding check_target elem
  scan-targets ts h =
      let bad = λ (t : DeployTarget). invalid {ParseError = ParseError} (validate_target t) in
      let twice : DeployTarget → ConfigError ParseError = λ t. duplicate_target t.name in
      let name = λ (t : DeployTarget). t.name in
      (
        Fresh-Distinct _ (scan-admit bad twice name [] ts h).0,
        λ k. elem-scan bad twice name k [] ts h,
      )

  pub scan-providers :
      {Challenge : Type 0} (registry : Registry Challenge) (ps : List DdnsProviderConfig)
      → (scan (check_provider {ParseError = ParseError} registry) [] ps).0 ≡ []
      → Distinct (refs_of ps)
        × All (λ p. provider_error {ParseError = ParseError} registry p ≡ none) ps
  unfolding check_provider
  scan-providers registry ps h =
      let bad = λ (p : DdnsProviderConfig). provider_error {ParseError = ParseError} registry p in
      let twice : DdnsProviderConfig → ConfigError ParseError = λ p. duplicate_provider p.ref in
      let found = scan-admit bad twice (λ (p : DdnsProviderConfig). p.ref) [] ps h in
      (Fresh-Distinct _ found.0, found.1)

pub known_as :
    (P : Type 0) (xs ys : List Text) (k : Text)
    → ((k : Text) → elem k xs ≡ elem k ys)
    → P ⊎ (elem k xs ≡ true)
    → P ⊎ (elem k ys ≡ true)
known_as P xs ys k same (inl p) = inl p
known_as P xs ys k same (inr there) = inr (sym (same k) ∙ there)
