-- ===== src/Providers/Options.antt =====
-- internal/ddns/provider/provider_options.go: the options of a provider. A map is its entries in the
-- order in which the loop meets them.
pub mod Accepted
use domux.Prelude.{Bool, not, Option, none, some, List, [], ◌∷◌, if◌then◌else◌, get_or}
use domux.Text.{Text, ◌==◌, trim_space, le_text}
use domux.Mapping.{Mapping, get}
use domux.Sort.{sort}
use domux.Core.Names.{elem}

-- The errors of the package, by what their messages quote.
pub data ProviderError : Type 0 where
  unsupported_option option_required : Text → Text → ProviderError
  missing_options : Text → List Text → ProviderError
  already_registered no_updater no_challenge not_registered : Text → ProviderError
  challenge_failed : Text → ProviderError

-- the loop over the options that are given
unfoldable pub check_options : Text → List Text → Mapping Text → Option ProviderError
check_options provider allowed [] = none
check_options provider allowed ((key, value) ∷ options) =
    let name = trim_space key in
    let rest = check_options provider allowed options in
    if name == []
    then some (unsupported_option provider key)
    else if not (elem name allowed)
    then some (unsupported_option provider name)
    else if trim_space value == []
    then some (option_required provider name)
    else rest

-- strings.TrimSpace(cfg[key])
unfoldable pub option : Mapping Text → Text → Text
option options key = trim_space (get_or (get key options) [])

-- the loop over the required options
unfoldable pub missing : Mapping Text → List Text → List Text
missing options [] = []
missing options (key ∷ required) =
    let rest = missing options required in if option options key == [] then key ∷ rest else rest

unfoldable pub report_missing : Text → List Text → Option ProviderError
report_missing provider [] = none
report_missing provider (key ∷ keys) = some (missing_options provider (sort le_text (key ∷ keys)))

-- validateProviderOptions
unfoldable pub validate_provider_options :
    Text → Mapping Text → List Text → List Text → Option ProviderError
validate_provider_options provider options required allowed =
    elim (check_options provider allowed options) [
      | some e ↦ some e
      | none ↦ report_missing provider (missing options required)
    ]
