-- ===== src/Providers/Options/Accepted.antt =====
-- Which options are accepted.
use domux.Prelude.{◌≡◌, ◌≢◌, ◌↔◌, true, none, List, [], ◌∷◌, arith, All, Option-cases}
use domux.Text.{Text, trim_space}
use domux.Text.Equality.{eq_iff}
use domux.Mapping.{Mapping}
use domux.Core.Names.{elem}
use domux.Providers.Options.{
  check_options, option, missing, report_missing, validate_provider_options,
}

-- An option that is allowed, and not blank.
abbrev pub IsAllowed : List Text → Text × Text → Type 0
IsAllowed allowed (key, value) =
    (trim_space key ≢ []) × (elem (trim_space key) allowed ≡ true) × (trim_space value ≢ [])

check_options_iff :
    (provider : Text) (allowed : List Text) (options : Mapping Text)
    → (check_options provider allowed options ≡ none) ↔ All (IsAllowed allowed) options
unfolding check_options
check_options_iff provider allowed [] = ground arith
check_options_iff provider allowed ((key, value) ∷ options) = ground (
  arith,
  eq_iff (trim_space key) [],
  eq_iff (trim_space value) [],
  check_options_iff provider allowed options,
)

missing_iff :
    (options : Mapping Text) (required : List Text)
    → (missing options required ≡ []) ↔ All (λ key. option options key ≢ []) required
unfolding missing
missing_iff options [] = ground arith
missing_iff options (key ∷ required) =
    ground (arith, eq_iff (option options key) [], missing_iff options required)

report_missing_iff :
    (provider : Text) (keys : List Text) → (report_missing provider keys ≡ none) ↔ (keys ≡ [])
unfolding report_missing
report_missing_iff provider [] = ground arith
report_missing_iff provider (key ∷ keys) = ground arith

-- Options are accepted exactly when each of them is allowed, under its trimmed name, and not blank, and
-- every required one is there; the order of the map does not matter.
pub validate_provider_options_iff :
    (provider : Text) (options : Mapping Text) (required allowed : List Text)
    → (validate_provider_options provider options required allowed ≡ none)
      ↔ (All (IsAllowed allowed) options × All (λ key. option options key ≢ []) required)
unfolding validate_provider_options
validate_provider_options_iff provider options required allowed = ground (
  arith,
  check_options_iff provider allowed options,
  missing_iff options required,
  report_missing_iff provider (missing options required),
  Option-cases (check_options provider allowed options),
)
