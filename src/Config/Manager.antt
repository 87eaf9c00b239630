-- ===== src/Config/Manager.antt =====
-- LoadFile of internal/platform/config/config.go, and internal/platform/config/manager.go. The YAML
-- library and the file system are parameters. The manager's mutex makes its calls follow one another.
pub mod Written
use domux.Prelude.{ℕ, Bool, ◌&&◌, Option, none, some, List, [], ◌∷◌, if◌then◌else◌, is_empty}
use domux.Prelude.Result.{Result, ok, err}
use domux.Text.{Text, codes, ◌==◌}
use domux.Files.{Disk, write_atomically}
use domux.Core.Runtime.{Env}
use domux.Providers.Registry.{Challenges}
use domux.Config.{Config, ConfigFile, default_config}
use domux.Config.File.{unmarshal, marshal}
use domux.Config.Checks.{ConfigError}
use domux.Config.Checks.Whole.{validate_config, defaulted}

abbrev pub default_path : Text
default_path = codes "config.yaml"

-- 0o644
abbrev pub config_mode : ℕ
config_mode = 420

-- yaml.v3: decoding gives nothing for a document without content, where the configuration stays as it is.
pub record Yaml (Failure : Type 0) : Type 0 where
  pub decode : Text → Result Failure (Option ConfigFile)
  pub encode : ConfigFile → Result Failure Text

-- What the manager uses beside the disk: the directory of a path, the test for a missing file, and what
-- Validate needs
pub record Tools (Failure ParseError Challenge : Type 0) : Type 0 where
  pub yaml : Yaml Failure
  pub dir : Text → Text
  pub is_not_exist : Failure → Bool
  pub env : Env
  pub parse_url : Text → Result ParseError (Text × Text)
  pub challenges : Challenges Challenge

-- LoadFile gives the configuration beside the errors of Validate.
pub data ManagerError (Failure ParseError : Type 0) : Type 0 where
  unreadable undecodable refused unwritten : Failure → ManagerError Failure ParseError
  invalid : Config → List (ConfigError ParseError) → ManagerError Failure ParseError

-- Manager.Path
unfoldable pub manager_path : Text → Text
manager_path path = if path == [] then default_path else path

module _ {Failure ParseError Challenge : Type 0} (d : Disk Failure)
    (tools : Tools Failure ParseError Challenge) where
  -- LoadFile before it validates
  unfoldable pub read_config : Text → d.State → Result (ManagerError Failure ParseError) Config
  read_config given s =
      let path = if given == [] then default_path else given in
      elim (d.read_file path s) [
        | err e ↦
            if tools.is_not_exist e && path == default_path
            then ok (default_config tools.env)
            else err (unreadable e)
        | ok text ↦ elim (tools.yaml.decode text) [
          | err e ↦ err (undecodable e)
          | ok none ↦ ok (default_config tools.env)
          | ok (some file) ↦ ok (unmarshal tools.env file)
        ]
      ]

  -- a configuration and the result of its Validate, which sets defaults in its zones
  unfoldable pub validated : Config → Result (ManagerError Failure ParseError) Config
  validated c =
      let c' = record c { zones = defaulted c.zones } in
      let errs = validate_config tools.env tools.parse_url tools.challenges c in
      if is_empty errs then ok c' else err (invalid c' errs)

  -- LoadFile
  unfoldable pub load_file : Text → d.State → Result (ManagerError Failure ParseError) Config
  unfolding read_config validated
  load_file path s = elim (read_config path s) [ err e ↦ err e | ok c ↦ validated c ]

  -- writeFile
  unfoldable pub write_file : Text → Config → d.State → d.State × Option Failure
  write_file path c s =
      let (s', failed) = d.mkdir_all (tools.dir path) s in
      elim failed [
        | some e ↦ (s', some e)
        | none ↦ elim (tools.yaml.encode (marshal c)) [
          | err e ↦ (s', some e)
          | ok text ↦ write_atomically d path text config_mode s'
        ]
      ]

  -- the end of Update, and Replace
  unfoldable pub replace :
      Text → Config → d.State → d.State × Result (ManagerError Failure ParseError) Config
  unfolding write_file manager_path validated
  replace path c s = elim (validated c) [
    | err e ↦ (s, err e)
    | ok c' ↦
        let (s', failed) = write_file (manager_path path) c' s in
        (s', elim failed [ some e ↦ err (unwritten e) | none ↦ ok c' ])
  ]

  -- Update, for a mutator that gives the new configuration or an error
  unfoldable pub update :
      Text
      → (Config → Result Failure Config)
      → d.State
      → d.State × Result (ManagerError Failure ParseError) Config
  unfolding load_file replace
  update path mutate s = elim (load_file (manager_path path) s) [
    | err e ↦ (s, err e)
    | ok c ↦ elim (mutate c) [ err e ↦ (s, err (refused e)) | ok c' ↦ replace path c' s ]
  ]
