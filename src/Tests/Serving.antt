-- ===== src/Tests/Serving.antt =====
-- The theorems on certificates by host name and on the route table, applied.
use domux.Prelude.{◌≡◌, ◌≢◌, refl, ℕ, false, some, none, List, [], ◌∷◌, ◌++◌, All, arith}
use domux.Text.{
  Text, codes, trim_space, trim_left, trim_right, is_space, cut_prefix, has_prefix, lower, to_lower,
}
use domux.Mapping.{last_with}
use domux.Proxy.Tls.{CertStore, new_store, set, set_all, get_certificate, has_certificates}
use domux.Proxy.Tls.Choice.{Choice, get_certificate-Choice}
use domux.Proxy.Tls.Loading.{get_certificate-set, only_wildcards}
use domux.Proxy.Http.{swap, lookup}
use domux.Proxy.Http.Routing.{lookup-swap}
use domux.Tests.{example_org, app_example_org, app_route}

-- A table of lower-case letters above ASCII that changes none.
abbrev same : ℕ → ℕ
same c = c

abbrev star : Text
star = codes "*.example.org"

abbrev certs : CertStore ℕ
certs = record {
  exact = (example_org, 1) ∷ [];
  wildcards = (example_org, 2) ∷ [];
  default_cert = some 1;
}

get_certificate-Choice_example :
    (cert : ℕ) × (get_certificate same (some app_example_org) certs ≡ some cert)
    × Choice certs 1 (to_lower same app_example_org) cert
get_certificate-Choice_example = get_certificate-Choice same certs 1 app_example_org refl cc

example_filled : codes "Example.org" ≢ []
example_filled = cc

get_certificate-set_example :
    get_certificate same (some (codes "Example.org")) (set same example_org 3 certs) ≡ some 3
unfolding trim_space trim_left trim_right is_space has_prefix cut_prefix to_lower lower
get_certificate-set_example =
    get_certificate-set same example_org (codes "Example.org") 3 certs refl refl example_filled

abbrev pairs : List (Text × ℕ)
pairs = (star, 2) ∷ []

only_wildcards_example :
    (has_certificates (set_all same pairs new_store) ≡ false)
    × (get_certificate same (some app_example_org) (set_all same pairs new_store) ≡ none)
unfolding trim_space trim_left trim_right is_space has_prefix cut_prefix to_lower lower
only_wildcards_example = only_wildcards same pairs (some app_example_org) (refl, tt)

no_colon : All (λ c. c ≢ b':') (to_lower same app_example_org)
unfolding to_lower lower
no_colon = ground arith

lookup-swap_example :
    (lookup same app_example_org (swap same (app_route ∷ []))
      ≡ last_with (λ r. to_lower same r.host) (to_lower same app_example_org) (app_route ∷ []) none)
    × (lookup same (app_example_org ++ b':' ∷ codes "443") (swap same (app_route ∷ []))
        ≡ last_with
            (λ r. to_lower same r.host)
            (to_lower same app_example_org)
            (app_route ∷ [])
            none)
lookup-swap_example = lookup-swap same app_example_org (codes "443") (app_route ∷ []) no_colon
