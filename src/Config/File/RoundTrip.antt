-- ===== src/Config/File/RoundTrip.antt =====
-- A configuration that is written and read again.
use mathlib.Core.List.{Perm}
use domux.Prelude.{
  ◌≡◌, refl, ap₂, subst, ◌∙◌, true, false, List, [], ◌∷◌, arith, All, map, Bool-cases, is_empty,
}
use domux.Prelude.Int.{ℤ, is_zero, pos, negsuc}
use domux.Text.{Text, trim_space}
use domux.Text.Equality.{eq_iff}
use domux.Core.Types.{ManagedZone, CustomApp}
use domux.Core.Runtime.{Env}
use domux.Config.{Config, PublicIpConfig, is_unset, no_public_ip}
use domux.Config.File.{
  app_key, app_of, zone_of, apps_of, server_of, unmarshal, apps_at, entry_of, domain_of, marshal,
}
use domux.Config.File.Grouped.{
  IsSettledZone, IsSettledApp, IsSettled, domains, app_key_lem, collect, perm_collect, Covered_lem,
  grouped, collect-grouped,
}

zone_of-domain_of :
    (apps : List CustomApp) (z : ManagedZone) → IsSettledZone z → zone_of (domain_of apps z) ≡ z
unfolding zone_of domain_of
zone_of-domain_of apps z s = ground (arith, s.name, s.domain, eq_iff z.name [], eq_iff z.domain [])

app_of-entry_of : (a : CustomApp) → IsSettledApp a → app_of a.domain (entry_of a) ≡ a
unfolding app_of entry_of
app_of-entry_of a s =
    ground (arith, s.name, s.icon, s.subdomain, s.exit_node, s.target_url, s.zone, eq_iff a.name [])

pub empty_lem {ℓ} : {A : Type ℓ} (xs : List A) → is_empty xs ≡ true → xs ≡ []
empty_lem [] h = refl
empty_lem (x ∷ xs) h = absurd (cc h)

is_zero_lem : (t : ℤ) → is_zero t ≡ true → t ≡ pos 0
is_zero_lem (pos n) h = ground (arith, h)
is_zero_lem (negsuc n) h = absurd (cc h)

unset_lem : (p : PublicIpConfig) → is_unset p ≡ true → p ≡ no_public_ip
unfolding is_unset
unset_lem p h = ground (
  arith,
  h,
  empty_lem p.ipv4_urls,
  empty_lem p.ipv6_urls,
  is_zero_lem p.timeout,
  Bool-cases (is_empty p.ipv4_urls),
  Bool-cases (is_empty p.ipv6_urls),
  Bool-cases (is_zero p.timeout),
)

server_of-marshal :
    (env : Env) (c : Config) → IsSettled env c → server_of env (marshal c) ≡ c.server
unfolding server_of marshal
server_of-marshal env c s = ground (
  arith,
  s.data_dir,
  s.runtime,
  eq_iff (trim_space c.server.data_dir) [],
  unset_lem c.server.public_ip,
  Bool-cases (is_unset c.server.public_ip),
)

map-zone_of-domain_of :
    (apps : List CustomApp) (zones : List ManagedZone)
    → All IsSettledZone zones
    → map zone_of (map (domain_of apps) zones) ≡ zones
map-zone_of-domain_of apps [] h = refl
map-zone_of-domain_of apps (z ∷ zones) h =
    ap₂ (λ x xs. x ∷ xs) (zone_of-domain_of apps z h.0) (map-zone_of-domain_of apps zones h.1)

map-app_of-entry_of :
    (d : Text) (apps : List CustomApp)
    → All IsSettledApp apps
    → map (app_of d) (map entry_of (apps_at d apps)) ≡ apps_at d apps
unfolding apps_at
map-app_of-entry_of d [] h = refl
map-app_of-entry_of d (a ∷ bs) h = ground (
  arith,
  app_key_lem a h.0,
  app_of-entry_of a h.0,
  eq_iff (app_key a) d,
  map-app_of-entry_of d bs h.1,
)

apps_of-domain_of :
    (apps : List CustomApp) (zones : List ManagedZone)
    → All IsSettledApp apps
    → All IsSettledZone zones
    → apps_of (map (domain_of apps) zones) ≡ collect (domains zones) apps
unfolding apps_of collect domain_of
apps_of-domain_of apps [] s h = refl
apps_of-domain_of apps (z ∷ zones) s h = ground (
  arith,
  h.0,
  eq_iff z.domain [],
  map-app_of-entry_of z.domain apps s,
  apps_of-domain_of apps zones s h.1,
)

is_empty-map {ℓ κ} :
    {A : Type ℓ} {B : Type κ} (f : A → B) (xs : List A) → is_empty (map f xs) ≡ is_empty xs
is_empty-map f [] = refl
is_empty-map f (x ∷ xs) = refl

unmarshal-same :
    (env : Env) (c : Config) (zones : List ManagedZone) (apps : List CustomApp)
    → is_empty (marshal c).domains ≡ false
    → map zone_of (marshal c).domains ≡ zones
    → apps_of (marshal c).domains ≡ apps
    → server_of env (marshal c) ≡ c.server
    → unmarshal env (marshal c) ≡ record c {
      data_dir = c.server.data_dir;
      public_ip = c.server.public_ip;
      apps = apps;
      zones = zones;
    }
unfolding unmarshal marshal
unmarshal-same env c zones apps h read made same = ground (arith, h, read, made, same)

pub unmarshal-marshal :
    (env : Env) (c : Config)
    → IsSettled env c
    → (unmarshal env (marshal c) ≡ record c {
      data_dir = c.server.data_dir;
      public_ip = c.server.public_ip;
      apps = grouped (domains c.zones) c.apps;
    })
      × Perm (grouped (domains c.zones) c.apps) c.apps
unfolding marshal
unmarshal-marshal env c s =
    let same = collect-grouped (domains c.zones) c.apps s.apps in
    let covered = Covered_lem (domains c.zones) c.apps s.apps s.placed in
    let full = perm_collect (domains c.zones) c.apps s.distinct covered in
    (
      unmarshal-same env c c.zones (grouped (domains c.zones) c.apps)
          (is_empty-map (domain_of c.apps) c.zones ∙ s.some_zone)
          (map-zone_of-domain_of c.apps c.zones s.zones)
          (apps_of-domain_of c.apps c.zones s.apps s.zones ∙ same) (server_of-marshal env c s),
      subst (λ xs. Perm xs c.apps) same full,
    )
