-- ===== src/Config/Checks/Apps.antt =====
-- The loop of Validate over the apps, and CustomApp.Host of internal/core/types.go.
pub mod Sound
use domux.Prelude.{Bool, true, false, ◌&&◌, not, Option, none, some, List, [], ◌∷◌, if◌then◌else◌}
use domux.Prelude.Result.{Result}
use domux.Text.{Text, ◌==◌, trim_space}
use domux.Mapping.{Mapping, get}
use domux.Core.Types.{ManagedZone, CustomApp}
use domux.Core.Names.{elem}
use domux.Core.Bundles.{validate_app}
use domux.Core.Zone.{hostname}
use domux.Config.File.{app_key}
use domux.Config.Checks.{
  ConfigError, invalid_item, duplicate_app, duplicate_host, unknown_domain, unknown_exit_node, scan,
}

-- CustomApp.Host
unfoldable pub app_host : CustomApp → ManagedZone → Text
app_host a z = hostname z a.subdomain

-- `seenApps` and `seenAppHosts`
pub record SeenApps : Type 0 where
  pub names : List Text
  pub hosts : List Text

module _ {ParseError : Type 0} (parse : Text → Result ParseError (Text × Text))
    (zones : Mapping ManagedZone) (agents : List Text) where
  -- The tests after the name of an app has entered the set
  unfoldable pub check_place : SeenApps → CustomApp → List (ConfigError ParseError) × SeenApps
  unfolding app_key app_host
  check_place s a = elim (get (app_key a) zones) [
    | none ↦ (unknown_domain a.name (app_key a) ∷ [], s)
    | some z ↦
        let host = app_host a z in
        if not (trim_space a.exit_node == []) && not (elem a.exit_node agents)
        then (unknown_exit_node a.name a.exit_node ∷ [], s)
        else if elem host s.hosts
        then (duplicate_host host ∷ [], s)
        else ([], record s { hosts = host ∷ s.hosts })
  ]

  unfoldable pub check_app : SeenApps → CustomApp → List (ConfigError ParseError) × SeenApps
  unfolding check_place
  check_app s a = elim (validate_app parse a) [
    | some e ↦ (invalid_item e ∷ [], s)
    | none ↦
        if elem a.name s.names
        then (duplicate_app a.name ∷ [], s)
        else check_place (record s { names = a.name ∷ s.names }) a
  ]

  unfoldable pub check_apps : List CustomApp → List (ConfigError ParseError)
  unfolding check_app scan
  check_apps apps = (scan check_app (record { names = []; hosts = [] }) apps).0
