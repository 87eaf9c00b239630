-- ===== src/Providers/Registry.antt =====
-- internal/ddns/provider/provider.go: the registry of providers. The challenge providers are the ACME
-- library's; their constructors are parameters.
pub mod Builtin
use domux.Prelude.{
  Bool, true, false, Option, none, some, List, [], ◌∷◌, if◌then◌else◌, is_some, is_empty,
}
use domux.Prelude.Result.{Result, ok, err, error}
use domux.Text.{Text, codes}
use domux.Mapping.{Mapping, get, put}
use domux.Sort.{sort, by_key}
use domux.Core.Names.{elem}
use domux.Providers.Options.{
  ProviderError, already_registered, no_updater, no_challenge, not_registered,
}
use domux.Providers.Clients.{
  Updater, new_cloudflare, new_alidns, new_godaddy, new_spaceship, validate_cloudflare_config,
  validate_alidns_config, validate_godaddy_config, validate_spaceship_config,
}

abbrev pub record_type_a : Text
record_type_a = codes "A"

abbrev pub record_type_aaaa : Text
record_type_aaaa = codes "AAAA"

abbrev pub Validator : Type 0
Validator = Mapping Text → Option ProviderError

-- Definition; an absent function is nil.
pub record Definition (Challenge : Type 0) : Type 0 where
  pub updater_factory : Option (Mapping Text → Result ProviderError Updater)
  pub challenge_factory : Option (Mapping Text → Result ProviderError Challenge)
  pub validate_updater : Option Validator
  pub validate_challenge : Option Validator
  pub supported_record_types : List Text

abbrev pub Registry : Type 0 → Type 0
Registry Challenge = Mapping (Definition Challenge)

pub record CatalogEntry : Type 0 where
  pub name : Text
  pub supported_record_types : List Text

-- NewCloudflareChallenge and the like
pub record Challenges (Challenge : Type 0) : Type 0 where
  pub cloudflare : Mapping Text → Result ProviderError Challenge
  pub alidns : Mapping Text → Result ProviderError Challenge
  pub godaddy : Mapping Text → Result ProviderError Challenge
  pub spaceship : Mapping Text → Result ProviderError Challenge

-- The result of a factory; a nil factory is never called, as Register refuses it.
unfoldable pub made :
    {A : Type 0}
    → Text
    → Option (Mapping Text → Result ProviderError A)
    → Mapping Text
    → Result ProviderError A
made name none options = err (not_registered name)
made name (some f) options = f options

module _ {Challenge : Type 0} where
  -- Register
  unfoldable pub register :
      Text → Definition Challenge → Registry Challenge → Registry Challenge × Option ProviderError
  register name d r =
      if is_some (get name r) then (r, some (already_registered name)) else elim d.updater_factory [
        | none ↦ (r, some (no_updater name))
        | some f ↦ elim d.challenge_factory [
          | none ↦ (r, some (no_challenge name))
          | some g ↦ (put name d r, none)
        ]
      ]

  unfoldable pub exists : Text → Registry Challenge → Bool
  exists name r = is_some (get name r)

  unfoldable pub supports_record_type : Text → Text → Registry Challenge → Bool
  supports_record_type name type r = elim (get name r) [
    | none ↦ false
    | some d ↦
        if is_empty d.supported_record_types then true else elem type d.supported_record_types
  ]

  unfoldable pub entries : Registry Challenge → List CatalogEntry
  entries [] = []
  entries ((name, d) ∷ r) =
      record { name = name; supported_record_types = d.supported_record_types } ∷ entries r

  unfoldable pub catalog : Registry Challenge → List CatalogEntry
  unfolding entries
  catalog r = sort (by_key (λ e. e.name)) (entries r)

  unfoldable pub validate_updater : Text → Mapping Text → Registry Challenge → Option ProviderError
  unfolding made
  validate_updater name options r = elim (get name r) [
    | none ↦ some (not_registered name)
    | some d ↦ elim d.validate_updater [
      | some check ↦ check options
      | none ↦ error (made name d.updater_factory options)
    ]
  ]

  unfoldable pub validate_challenge :
      Text → Mapping Text → Registry Challenge → Option ProviderError
  unfolding made
  validate_challenge name options r = elim (get name r) [
    | none ↦ some (not_registered name)
    | some d ↦ elim d.validate_challenge [
      | some check ↦ check options
      | none ↦ error (made name d.challenge_factory options)
    ]
  ]

  -- New
  unfoldable pub new_updater :
      Text → Mapping Text → Registry Challenge → Result ProviderError Updater
  unfolding made
  new_updater name options r = elim (get name r) [
    | none ↦ err (not_registered name)
    | some d ↦ made name d.updater_factory options
  ]

  unfoldable pub new_challenge :
      Text → Mapping Text → Registry Challenge → Result ProviderError Challenge
  unfolding made
  new_challenge name options r = elim (get name r) [
    | none ↦ err (not_registered name)
    | some d ↦ made name d.challenge_factory options
  ]

  -- A call of Register in RegisterBuiltins, whose error ends it.
  unfoldable pub register_all :
      List (Text × Definition Challenge)
      → Registry Challenge
      → Registry Challenge × Option ProviderError
  unfolding register
  register_all [] r = (r, none)
  register_all ((name, d) ∷ ds) r =
      let (r', e) = register name d r in
      let rest = register_all ds r' in elim e [ some x ↦ (r', some x) | none ↦ rest ]

  abbrev pub definition :
      (Mapping Text → Result ProviderError Updater)
      → (Mapping Text → Result ProviderError Challenge)
      → Validator
      → Definition Challenge
  definition updater challenge check = record {
    updater_factory = some updater;
    challenge_factory = some challenge;
    validate_updater = some check;
    validate_challenge = some check;
    supported_record_types = record_type_a ∷ record_type_aaaa ∷ [];
  }

  unfoldable pub register_builtins :
      Challenges Challenge → Registry Challenge → Registry Challenge × Option ProviderError
  unfolding register_all
  register_builtins c r =
      register_all
        ((codes "cloudflare", definition new_cloudflare c.cloudflare validate_cloudflare_config)
          ∷ (codes "alidns", definition new_alidns c.alidns validate_alidns_config)
          ∷ (codes "godaddy", definition new_godaddy c.godaddy validate_godaddy_config)
          ∷ (codes "spaceship", definition new_spaceship c.spaceship validate_spaceship_config)
          ∷ [])
        r

  -- NewBuiltinRegistry
  unfoldable pub new_builtin_registry :
      Challenges Challenge → Registry Challenge × Option ProviderError
  unfolding register_builtins
  new_builtin_registry c = register_builtins c []
