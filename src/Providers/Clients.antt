-- ===== src/Providers/Clients.antt =====
-- The clients of the DNS providers, as NewCloudflare, NewAliDNS, NewGoDaddy and NewSpaceship of
-- internal/ddns/provider make them, without their HTTP client.
use domux.Prelude.{◌||◌, Option, List, [], ◌∷◌, if◌then◌else◌, is_empty, ◌&&◌, nat_eq}
use domux.Prelude.Result.{Result, ok, err}
use domux.Text.{Text, codes, ◌==◌}
use domux.Mapping.{Mapping}
use domux.Providers.Options.{ProviderError, missing_options, option, validate_provider_options}

-- strings.TrimRight(s, "/")
unfoldable pub trim_slashes : Text → Text
trim_slashes [] = []
trim_slashes (c ∷ s) =
    let rest = trim_slashes s in if is_empty rest && nat_eq c b'/' then [] else c ∷ rest

pub record Cloudflare : Type 0 where
  pub api_token : Text
  pub api_base_url : Text

pub record AliDns : Type 0 where
  pub access_key_id : Text
  pub access_key_secret : Text
  pub endpoint : Text

pub record GoDaddy : Type 0 where
  pub api_key : Text
  pub api_secret : Text
  pub api_base_url : Text

pub record Spaceship : Type 0 where
  pub api_key : Text
  pub api_secret : Text
  pub api_base_url : Text

-- The implementations of Updater
pub data Updater : Type 0 where
  cloudflare : Cloudflare → Updater
  alidns : AliDns → Updater
  godaddy : GoDaddy → Updater
  spaceship : Spaceship → Updater

abbrev pub key_options : List Text
key_options = codes "api_key" ∷ codes "api_secret" ∷ []

abbrev pub access_key_options : List Text
access_key_options = codes "access_key_id" ∷ codes "access_key_secret" ∷ []

abbrev pub token_options : List Text
token_options = codes "api_token" ∷ []

or_default : Text → Text → Text
or_default value default = if value == [] then default else value

unfoldable pub new_cloudflare : Mapping Text → Result ProviderError Updater
unfolding or_default
new_cloudflare options =
    let token = option options (codes "api_token") in
    let base =
      or_default (option options (codes "api_base_url"))
        (codes "https://api.cloudflare.com/client/v4") in
    if token == []
    then err (missing_options (codes "cloudflare") token_options)
    else ok (cloudflare (record { api_token = token; api_base_url = trim_slashes base }))

unfoldable pub new_alidns : Mapping Text → Result ProviderError Updater
unfolding or_default
new_alidns options =
    let id = option options (codes "access_key_id") in
    let secret = option options (codes "access_key_secret") in
    let endpoint =
      or_default (option options (codes "endpoint")) (codes "https://alidns.aliyuncs.com/") in
    if id == [] || secret == []
    then err (missing_options (codes "alidns") access_key_options)
    else ok
        (alidns (record { access_key_id = id; access_key_secret = secret; endpoint = endpoint }))

unfoldable pub new_godaddy : Mapping Text → Result ProviderError Updater
unfolding or_default
new_godaddy options =
    let key = option options (codes "api_key") in
    let secret = option options (codes "api_secret") in
    let base =
      or_default (option options (codes "api_base_url")) (codes "https://api.godaddy.com/v1") in
    if key == [] || secret == []
    then err (missing_options (codes "godaddy") key_options)
    else ok
        (godaddy (record { api_key = key; api_secret = secret; api_base_url = trim_slashes base }))

unfoldable pub new_spaceship : Mapping Text → Result ProviderError Updater
new_spaceship options =
    let key = option options (codes "api_key") in
    let secret = option options (codes "api_secret") in
    if key == [] || secret == []
    then err (missing_options (codes "spaceship") key_options)
    else ok (
        spaceship (record {
          api_key = key;
          api_secret = secret;
          api_base_url = codes "https://spaceship.dev/api/v1";
        }))

-- validateCloudflareConfig and the like; those of the challenges are the same.
unfoldable pub validate_cloudflare_config : Mapping Text → Option ProviderError
validate_cloudflare_config options =
    validate_provider_options (codes "cloudflare") options token_options token_options

unfoldable pub validate_alidns_config : Mapping Text → Option ProviderError
validate_alidns_config options =
    validate_provider_options (codes "alidns") options access_key_options access_key_options

unfoldable pub validate_godaddy_config : Mapping Text → Option ProviderError
validate_godaddy_config options =
    validate_provider_options (codes "godaddy") options key_options key_options

unfoldable pub validate_spaceship_config : Mapping Text → Option ProviderError
validate_spaceship_config options =
    validate_provider_options (codes "spaceship") options key_options key_options
