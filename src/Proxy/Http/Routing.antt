-- ===== src/Proxy/Http/Routing.antt =====
-- Which route a request takes.
use domux.Prelude.{
  ◌≡◌, ◌≢◌, refl, sym, ap, ap₂, ◌∙◌, Option, none, List, [], ◌∷◌, ◌++◌, arith, ℕ, ◌≤◌, All,
}
use domux.Text.{Text, to_lower, lower, before}
use domux.Text.Split.{before_none, before-append}
use domux.Mapping.{Mapping, get, last_with, get-keyed_onto}
use domux.Core.Types.{DiscoveredRoute}
use domux.Proxy.Http.{swap, lookup_key, lookup, serve_http}

module _ (unicode_lower : ℕ → ℕ) where
  to_lower-append :
      (s t : Text)
      → to_lower unicode_lower (s ++ t) ≡ to_lower unicode_lower s ++ to_lower unicode_lower t
  unfolding to_lower
  to_lower-append [] t = refl
  to_lower-append (c ∷ s) t = ap (◌∷◌ (lower unicode_lower c)) (to_lower-append s t)

  key-port :
      (host port : Text)
      → All (λ c. c ≢ b':') (to_lower unicode_lower host)
      → lookup_key unicode_lower (host ++ b':' ∷ port) ≡ lookup_key unicode_lower host
  unfolding lookup_key to_lower
  key-port host port h =
      ap (before b':') (to_lower-append host (b':' ∷ port))
      ∙ before-append b':' (to_lower unicode_lower host) _ h
      ∙ sym (before_none b':' _ h)

  key_plain :
      (host : Text)
      → All (λ c. c ≢ b':') (to_lower unicode_lower host)
      → lookup_key unicode_lower host ≡ to_lower unicode_lower host
  unfolding lookup_key
  key_plain host h = before_none b':' _ h

  -- After Swap, a request for a host whose lower case has no colon, alone or with a port behind a colon,
  -- takes the last of the routes whose host is the same in lower case, and no route if there is none.
  pub lookup-swap :
      (host port : Text) (routes : List DiscoveredRoute)
      → All (λ c. c ≢ b':') (to_lower unicode_lower host)
      → (lookup unicode_lower host (swap unicode_lower routes)
          ≡ last_with
              (λ r. to_lower unicode_lower r.host)
              (to_lower unicode_lower host)
              routes
              none)
        × (lookup unicode_lower (host ++ b':' ∷ port) (swap unicode_lower routes)
            ≡ last_with
                (λ r. to_lower unicode_lower r.host)
                (to_lower unicode_lower host)
                routes
                none)
  unfolding lookup swap get
  lookup-swap host port routes h =
      let low : DiscoveredRoute → Text = λ r. to_lower unicode_lower r.host in
      let table = swap unicode_lower routes in
      let plain =
        ap (λ (k : Text). get k table) (key_plain host h)
        ∙ get-keyed_onto low (to_lower unicode_lower host) routes [] in
      (plain, ap (λ (k : Text). get k table) (key-port host port h) ∙ plain)

  pub lookup-port :
      (host port : Text) (routes : Mapping DiscoveredRoute)
      → All (λ c. c ≢ b':') (to_lower unicode_lower host)
      → lookup unicode_lower (host ++ b':' ∷ port) routes ≡ lookup unicode_lower host routes
  unfolding lookup
  lookup-port host port routes h = ap (λ (k : Text). get k routes) (key-port host port h)

  lower_twice :
      ((c : ℕ) → 128 ≤ c → lower unicode_lower (unicode_lower c) ≡ unicode_lower c)
      → (c : ℕ) → lower unicode_lower (lower unicode_lower c) ≡ lower unicode_lower c
  unfolding lower
  lower_twice table c = ground (arith, table c)

  to_lower-to_lower :
      ((c : ℕ) → 128 ≤ c → lower unicode_lower (unicode_lower c) ≡ unicode_lower c)
      → (s : Text) → to_lower unicode_lower (to_lower unicode_lower s) ≡ to_lower unicode_lower s
  unfolding to_lower
  to_lower-to_lower table [] = refl
  to_lower-to_lower table (c ∷ s) = ap₂ ◌∷◌ (lower_twice table c) (to_lower-to_lower table s)

  pub lookup-to_lower :
      (host : Text) (routes : Mapping DiscoveredRoute)
      → ((c : ℕ) → 128 ≤ c → lower unicode_lower (unicode_lower c) ≡ unicode_lower c)
      → lookup unicode_lower (to_lower unicode_lower host) routes ≡ lookup unicode_lower host routes
  unfolding lookup lookup_key
  lookup-to_lower host routes table =
      ap (λ (t : Text). get (before b':' t) routes) (to_lower-to_lower table host)

  module _ {Url Transport : Type 0} (parse : Text → Option Url)
      (resolver : Option (DiscoveredRoute → Option Transport)) (routes : Mapping DiscoveredRoute)
      (host : Text) where
    -- A request is answered alike whatever the case of its host and whatever the port behind it,
    -- if the host has no colon and lowering a character above ASCII twice lowers it once.
    pub serve_http_same :
        (port : Text)
        → All (λ c. c ≢ b':') (to_lower unicode_lower host)
        → ((c : ℕ) → 128 ≤ c → lower unicode_lower (unicode_lower c) ≡ unicode_lower c)
        → (serve_http unicode_lower parse resolver routes (host ++ b':' ∷ port)
            ≡ serve_http unicode_lower parse resolver routes host)
          × (serve_http unicode_lower parse resolver routes (to_lower unicode_lower host)
              ≡ serve_http unicode_lower parse resolver routes host)
    unfolding serve_http
    serve_http_same port h table = (
      rw (lookup-port host port routes h, serve_http),
      rw (lookup-to_lower host routes table, serve_http),
    )
