-- ===== src/Proxy/Http.antt =====
-- internal/proxy/http/server.go: the route table and the decision that ServeHTTP makes.
pub mod Routing
use domux.Prelude.{ℕ, Option, none, some, List, [], if◌then◌else◌}
use domux.Text.{Text, ◌==◌, trim_space, to_lower, before}
use domux.Mapping.{Mapping, get, keyed_onto}
use domux.Core.Types.{DiscoveredRoute}

-- Where ServeHTTP sends a request. The reverse proxy itself and its error handler are the standard
-- library's.
pub data Response (Url Transport : Type 0) : Type 0 where
  not_found bad_gateway : Response Url Transport
  proxied : Url → Option Transport → Response Url Transport

module _ (unicode_lower : ℕ → ℕ) where
  -- Swap: the table is built anew, keyed by the lower-case host.
  unfoldable pub swap : List DiscoveredRoute → Mapping DiscoveredRoute
  swap routes = keyed_onto (λ r. to_lower unicode_lower r.host) routes []

  -- the key of Lookup: lower case, and the part before a colon
  unfoldable pub lookup_key : Text → Text
  lookup_key host = before b':' (to_lower unicode_lower host)

  -- Lookup
  unfoldable pub lookup : Text → Mapping DiscoveredRoute → Option DiscoveredRoute
  unfolding lookup_key
  lookup host routes = get (lookup_key host) routes

  module _ {Url Transport : Type 0} where
    -- ServeHTTP, over the URL parser and the resolver of transports (none for a nil resolver)
    unfoldable pub serve_http :
        (Text → Option Url)
        → Option (DiscoveredRoute → Option Transport)
        → Mapping DiscoveredRoute
        → Text
        → Response Url Transport
    serve_http parse resolver routes host = elim (lookup host routes) [
      | none ↦ not_found
      | some route ↦
          let target =
            if trim_space route.proxy_url == [] then route.target_url else route.proxy_url in
          elim (parse target) [
            | none ↦ bad_gateway
            | some url ↦ proxied url (elim resolver [ none ↦ none | some resolve ↦ resolve route ])
          ]
    ]
