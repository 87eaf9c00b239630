-- ===== src/Providers/Registry/Builtin.antt =====
-- The built-in registry.
use domux.Prelude.{◌≡◌, refl, Bool, true, false, Option, none, [], ◌∷◌, arith}
use domux.Prelude.Result.{Result, ok, err}
use domux.Text.{Text, codes, ◌==◌}
use domux.Text.Equality.{eq_iff}
use domux.Mapping.{Mapping, get, put}
use domux.Providers.Options.{ProviderError, option}
use domux.Providers.Options.Accepted.{validate_provider_options_iff}
use domux.Providers.Clients.{
  Updater, new_cloudflare, new_alidns, new_godaddy, new_spaceship, validate_cloudflare_config,
  validate_alidns_config, validate_godaddy_config, validate_spaceship_config, token_options,
  access_key_options, key_options,
}
use domux.Providers.Registry.{
  Challenges, Registry, new_builtin_registry, validate_updater, new_updater, definition,
}

abbrev pub is_ok : {A : Type 0} → Result ProviderError A → Bool
is_ok (ok a) = true
is_ok (err e) = false

-- A factory makes an updater of all options that the check accepts.
abbrev pub Fits :
    (Mapping Text → Option ProviderError) → (Mapping Text → Result ProviderError Updater) → Type 0
Fits check factory =
    (options : Mapping Text) → check options ≡ none → is_ok (factory options) ≡ true

cloudflare-Fits : Fits validate_cloudflare_config new_cloudflare
unfolding validate_cloudflare_config new_cloudflare
cloudflare-Fits options h =
    let present =
      ((validate_provider_options_iff (codes "cloudflare") options token_options token_options).0
        h).1 in
    ground (arith, present, eq_iff (option options (codes "api_token")) [])

alidns-Fits : Fits validate_alidns_config new_alidns
unfolding validate_alidns_config new_alidns
alidns-Fits options h =
    let present =
      ((validate_provider_options_iff (codes "alidns") options access_key_options
          access_key_options).0
        h).1 in
    ground (
      arith,
      present,
      eq_iff (option options (codes "access_key_id")) [],
      eq_iff (option options (codes "access_key_secret")) [],
    )

godaddy-Fits : Fits validate_godaddy_config new_godaddy
unfolding validate_godaddy_config new_godaddy
godaddy-Fits options h =
    let present =
      ((validate_provider_options_iff (codes "godaddy") options key_options key_options).0 h).1 in
    ground (
      arith,
      present,
      eq_iff (option options (codes "api_key")) [],
      eq_iff (option options (codes "api_secret")) [],
    )

spaceship-Fits : Fits validate_spaceship_config new_spaceship
unfolding validate_spaceship_config new_spaceship
spaceship-Fits options h =
    let present =
      ((validate_provider_options_iff (codes "spaceship") options key_options key_options).0 h).1 in
    ground (
      arith,
      present,
      eq_iff (option options (codes "api_key")) [],
      eq_iff (option options (codes "api_secret")) [],
    )

module _ {Challenge : Type 0} (c : Challenges Challenge) where
  -- the registry that the four registrations make
  abbrev builtin : Registry Challenge
  builtin =
      (codes "cloudflare", definition new_cloudflare c.cloudflare validate_cloudflare_config)
      ∷ (codes "alidns", definition new_alidns c.alidns validate_alidns_config)
      ∷ (codes "godaddy", definition new_godaddy c.godaddy validate_godaddy_config)
      ∷ (codes "spaceship", definition new_spaceship c.spaceship validate_spaceship_config)
      ∷ []

  new_builtin_registry_lem : new_builtin_registry c ≡ (builtin, none)
  unfolding new_builtin_registry get put ◌==◌
  new_builtin_registry_lem = refl

  -- NewBuiltinRegistry does not fail.
  pub new_builtin_registry-none : (new_builtin_registry c).1 ≡ none
  new_builtin_registry-none = rw new_builtin_registry_lem refl

  Option-fits :
      (name : Text) (options : Mapping Text)
      → validate_updater name options builtin ≡ none
      → is_ok (new_updater name options builtin) ≡ true
  unfolding validate_updater new_updater get
  Option-fits name options h = ground (
    arith,
    cloudflare-Fits options,
    alidns-Fits options,
    godaddy-Fits options,
    spaceship-Fits options,
  )

  -- Of a built-in provider whose options the registry's check accepts, the registry makes an updater.
  pub new_updater-validate_updater :
      (name : Text) (options : Mapping Text)
      → validate_updater name options (new_builtin_registry c).0 ≡ none
      → is_ok (new_updater name options (new_builtin_registry c).0) ≡ true
  new_updater-validate_updater name options h =
      rw new_builtin_registry_lem (Option-fits name options (rw new_builtin_registry_lem at h))
