-- ===== src/Config/Checks/Apps/Sound.antt =====
-- The loop over the apps where it reports nothing.
use domux.Prelude.{
  ◌≡◌, ◌⊎◌, refl, sym, ◌∙◌, subst, true, false, none, some, List, [], ◌∷◌, arith, inl, inr, is_some,
  Bool-cases, Option-cases, All,
}
use domux.Prelude.Result.{Result}
use domux.Text.{Text, trim_space}
use domux.Text.Equality.{eq_iff}
use domux.Mapping.{Mapping, get}
use domux.Core.Types.{ManagedZone, CustomApp}
use domux.Core.Names.{elem}
use domux.Core.Bundles.{validate_app}
use domux.Config.File.{app_key}
use domux.Config.Checks.{ConfigError, scan}
use domux.Config.Checks.Scans.{Fresh, append-nil_left, append-nil_right}
use domux.Config.Checks.Coherent.{app_names, zone_at, app_hosts}
use domux.Config.Checks.Apps.{SeenApps, app_host, check_place, check_app, check_apps}

app_hosts-found :
    (zones : List ManagedZone) (a : CustomApp) (apps : List CustomApp) (z : ManagedZone)
    → zone_at (app_key a) zones ≡ some z
    → app_hosts zones (a ∷ apps) ≡ app_host a z ∷ app_hosts zones apps
unfolding app_hosts
app_hosts-found zones a apps z h = ground (arith, h)

module _ {ParseError : Type 0} (parse : Text → Result ParseError (Text × Text))
    (by_domain : Mapping ManagedZone) (agents : List Text) (zones : List ManagedZone)
    (same : (k : Text) → get k by_domain ≡ zone_at k zones) where
  -- An app that is accepted: its zone, its exit node, and what has then been seen
  record Accepted (s : SeenApps) (a : CustomApp) : Type 0 where
    zone : ManagedZone
    home : zone_at (app_key a) zones ≡ some zone
    new_name : elem a.name s.names ≡ false
    new_host : elem (app_host a zone) s.hosts ≡ false
    exit : (trim_space a.exit_node ≡ []) ⊎ (elem a.exit_node agents ≡ true)
    seen :
        (check_app parse by_domain agents s a).1
        ≡ record { names = a.name ∷ s.names; hosts = app_host a zone ∷ s.hosts }

  check_app-name :
      (s : SeenApps) (a : CustomApp)
      → (check_app parse by_domain agents s a).0 ≡ []
      → ((validate_app parse a ≡ none) × (elem a.name s.names ≡ false))
        × ((check_place parse by_domain agents (record s { names = a.name ∷ s.names }) a).0 ≡ [])
  unfolding check_app
  check_app-name s a h =
      ground (arith, h, Option-cases (validate_app parse a), Bool-cases (elem a.name s.names))

  check_place-home :
      (s : SeenApps) (a : CustomApp)
      → (check_place parse by_domain agents s a).0 ≡ []
      → (z : ManagedZone) × (get (app_key a) by_domain ≡ some z)
  unfolding check_place
  check_place-home s a h = elim (Option-cases (get (app_key a) by_domain)) [
    | inl nowhere ↦ absurd (ground (arith, h, nowhere))
    | inr found ↦ found
  ]

  check_app-nil :
      (s : SeenApps) (a : CustomApp) → (check_app parse by_domain agents s a).0 ≡ [] → Accepted s a
  unfolding check_app check_place
  check_app-nil s a h =
      let named = check_app-name s a h in
      let (z, found) = check_place-home (record s { names = a.name ∷ s.names }) a named.1 in
      record {
        zone = z;
        home = sym (same (app_key a)) ∙ found;
        new_name = named.0.1;
        new_host = ground (
          arith,
          named.1,
          found,
          Bool-cases (elem (app_host a z) s.hosts),
          Bool-cases (elem a.exit_node agents),
          eq_iff (trim_space a.exit_node) [],
        );
        exit = ground (
          arith,
          named.1,
          found,
          Bool-cases (elem (app_host a z) s.hosts),
          Bool-cases (elem a.exit_node agents),
          eq_iff (trim_space a.exit_node) [],
        );
        seen = ground (
          arith,
          named.0,
          named.1,
          found,
          Bool-cases (elem (app_host a z) s.hosts),
          Bool-cases (elem a.exit_node agents),
          eq_iff (trim_space a.exit_node) [],
        );
      }

  abbrev scanned : SeenApps → List CustomApp → List (ConfigError ParseError) × SeenApps
  scanned s apps = scan (check_app parse by_domain agents) s apps

  scanned-Fresh :
      (s : SeenApps) (apps : List CustomApp)
      → (scanned s apps).0 ≡ []
      → (Fresh s.names (app_names apps) × Fresh s.hosts (app_hosts zones apps))
        × (All (λ (a : CustomApp). is_some (zone_at (app_key a) zones) ≡ true) apps
            × All
                (λ (a : CustomApp).
                  (trim_space a.exit_node ≡ []) ⊎ (elem a.exit_node agents ≡ true))
                apps)
  unfolding scan app_hosts
  scanned-Fresh s [] h = ((tt, tt), (tt, tt))
  scanned-Fresh s (a ∷ apps) h =
      let here = check_app-nil s a (append-nil_left (check_app parse by_domain agents s a).0 _ h) in
      let later = append-nil_right (check_app parse by_domain agents s a).0 _ h in
      let rest =
        scanned-Fresh (record { names = a.name ∷ s.names; hosts = app_host a here.zone ∷ s.hosts })
          apps (rw here.seen at later) in
      (
        (
          (here.new_name, rest.0.0),
          subst (λ xs. Fresh s.hosts xs) (sym (app_hosts-found zones a apps here.zone here.home))
              (here.new_host, rest.0.1),
        ),
        ((rw here.home refl, rest.1.0), (here.exit, rest.1.1)),
      )

  -- What holds of the apps where the loop over them reports nothing.
  pub check_apps-nil :
      (apps : List CustomApp)
      → check_apps parse by_domain agents apps ≡ []
      → (Fresh [] (app_names apps) × Fresh [] (app_hosts zones apps))
        × (All (λ (a : CustomApp). is_some (zone_at (app_key a) zones) ≡ true) apps
            × All
                (λ (a : CustomApp).
                  (trim_space a.exit_node ≡ []) ⊎ (elem a.exit_node agents ≡ true))
                apps)
  unfolding check_apps
  check_apps-nil apps h = scanned-Fresh (record { names = []; hosts = [] }) apps h
