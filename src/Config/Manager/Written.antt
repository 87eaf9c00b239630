-- ===== src/Config/Manager/Written.antt =====
-- What the manager leaves in the file of the configuration.
use domux.Prelude.{
  ◌≡◌, ◌≢◌, ◌⊎◌, refl, sym, ap, ◌∙◌, none, some, [], arith, inl, inr, Option-cases, Bool-cases,
  is_empty, subst,
}
use domux.Prelude.Result.{Result, ok, err, Result-cases}
use domux.Text.{Text}
use domux.Text.Equality.{eq_iff}
use domux.Files.{Disk, DiskLaws, write_atomically}
use domux.Files.Atomic.{read_file-write_atomically}
use domux.Config.{Config, ConfigFile}
use domux.Config.File.{unmarshal, marshal}
use domux.Config.File.RoundTrip.{empty_lem, unmarshal-marshal}
use domux.Config.File.Grouped.{IsSettled, domains, grouped}
use domux.Config.Checks.Whole.{validate_config, defaulted}
use domux.Config.Manager.{
  Tools, ManagerError, unwritten, invalid, refused, read_config, validated, load_file, manager_path,
  write_file, replace, update, config_mode,
}

module _ {Failure ParseError Challenge : Type 0} (d : Disk Failure) (laws : DiskLaws d)
    (tools : Tools Failure ParseError Challenge) where
  -- The outcome of a call at a path: what the mutator makes of the loaded configuration is valid, and
  -- with the defaults of its zones it is returned and in the file, or the file is as before.
  pub data Outcome (path : Text) (mutate : Config → Result Failure Config) (before after : d.State)
      : Result (ManagerError Failure ParseError) Config → Type 0 where
    stored :
        (loaded c : Config) (text : Text)
        → load_file d tools path before ≡ ok loaded
        → mutate loaded ≡ ok c
        → validate_config tools.env tools.parse_url tools.challenges c ≡ []
        → tools.yaml.encode (marshal (record c { zones = defaulted c.zones })) ≡ ok text
        → d.read_file path after ≡ ok text
        → Outcome path mutate before after (ok (record c { zones = defaulted c.zones }))
    kept :
        (e : ManagerError Failure ParseError)
        → d.read_file path after ≡ d.read_file path before
        → Outcome path mutate before after (err e)

  write_file-read :
      (path : Text) (c : Config) (s : d.State)
      → ((write_file d tools path c s).1 ≡ none
          × ((text : Text) × ((tools.yaml.encode (marshal c) ≡ ok text)
                × (d.read_file path (write_file d tools path c s).0 ≡ ok text))))
        ⊎ ((e : Failure) × (((write_file d tools path c s).1 ≡ some e)
              × (d.read_file path (write_file d tools path c s).0 ≡ d.read_file path s)))
  unfolding write_file
  write_file-read path c s =
      let made = d.mkdir_all (tools.dir path) s in
      let same = laws.mkdir_keeps (tools.dir path) path s in
      elim (Option-cases made.1) [
        | inr (e, failed) ↦ inr (e, (ground (arith, failed), ground (arith, failed, same)))
        | inl there ↦ elim (Result-cases (tools.yaml.encode (marshal c))) [
          | inr (e, failed) ↦
              inr (e, (ground (arith, there, failed), ground (arith, there, failed, same)))
          | inl (text, encoded) ↦
              let written = read_file-write_atomically d laws path text config_mode made.0 in
              elim (Option-cases (write_atomically d path text config_mode made.0).1) [
                | inl done ↦ inl (
                  ground (arith, there, encoded, done),
                  (text, (encoded, ground (arith, there, encoded, done, written))),
                )
                | inr (e, failed) ↦ inr (
                  e,
                  (
                    ground (arith, there, encoded, failed),
                    ground (arith, there, encoded, failed, written, same),
                  ),
                )
              ]
        ]
      ]

  replace-invalid :
      (path : Text) (c : Config) (s : d.State) (e : ManagerError Failure ParseError)
      → validated d tools c ≡ err e
      → replace d tools path c s ≡ (s, err e)
  unfolding replace
  replace-invalid path c s e h = ground (arith, h)

  replace-stored :
      (path : Text) (c c' : Config) (s : d.State)
      → validated d tools c ≡ ok c'
      → (write_file d tools (manager_path path) c' s).1 ≡ none
      → replace d tools path c s ≡ ((write_file d tools (manager_path path) c' s).0, ok c')
  unfolding replace
  replace-stored path c c' s h k = ground (arith, h, k)

  replace-unwritten :
      (path : Text) (c c' : Config) (s : d.State) (e : Failure)
      → validated d tools c ≡ ok c'
      → (write_file d tools (manager_path path) c' s).1 ≡ some e
      → replace d tools path c s
        ≡ ((write_file d tools (manager_path path) c' s).0, err (unwritten e))
  unfolding replace
  replace-unwritten path c c' s e h k = ground (arith, h, k)

  abbrev Answer : Type 0
  Answer = d.State × Result (ManagerError Failure ParseError) Config

  abbrev Fine : Text → (Config → Result Failure Config) → d.State → Answer → Type 0
  Fine path mutate s r = Outcome path mutate s r.0 r.1

  validated-cases :
      (c : Config)
      → ((validate_config tools.env tools.parse_url tools.challenges c ≡ [])
          × (validated d tools c ≡ ok (record c { zones = defaulted c.zones })))
        ⊎ ((e : ManagerError Failure ParseError) × (validated d tools c ≡ err e))
  unfolding validated
  validated-cases c =
      elim (Bool-cases (is_empty (validate_config tools.env tools.parse_url tools.challenges c))) [
        | inl none_found ↦ inl (empty_lem _ none_found, ground (arith, none_found))
        | inr some_found ↦ inr (
          invalid (record c { zones = defaulted c.zones })
              (validate_config tools.env tools.parse_url tools.challenges c),
          ground (arith, some_found),
        )
      ]

  replace-Fine :
      (path : Text) (mutate : Config → Result Failure Config) (loaded c : Config) (s : d.State)
      → load_file d tools (manager_path path) s ≡ ok loaded
      → mutate loaded ≡ ok c
      → Fine (manager_path path) mutate s (replace d tools path c s)
  unfolding replace
  replace-Fine path mutate loaded c s found_file mutated = elim (validated-cases c) [
    | inr (e, failed) ↦
        subst (Fine (manager_path path) mutate s) (sym (replace-invalid path c s e failed))
          (kept e refl)
    | inl (valid, accepted) ↦
        let c' : Config = record c { zones = defaulted c.zones } in
        elim (write_file-read (manager_path path) c' s) [
          | inl (done, (text, (encoded, found))) ↦
              subst (Fine (manager_path path) mutate s)
                (sym (replace-stored path c c' s accepted done))
                (stored loaded c text found_file mutated valid encoded found)
          | inr (e, (failed, same)) ↦
              subst (Fine (manager_path path) mutate s)
                (sym (replace-unwritten path c c' s e accepted failed)) (kept _ same)
        ]
  ]

  update-loaded :
      (path : Text) (mutate : Config → Result Failure Config) (s : d.State)
      → (((e : ManagerError Failure ParseError) × (update d tools path mutate s ≡ (s, err e)))
          ⊎ ((loaded c : Config) × (load_file d tools (manager_path path) s ≡ ok loaded)
              × (mutate loaded ≡ ok c)
              × (update d tools path mutate s ≡ replace d tools path c s)))
  unfolding update
  update-loaded path mutate s = elim (Result-cases (load_file d tools (manager_path path) s)) [
    | inr (e, failed) ↦ inl (e, ground (arith, failed))
    | inl (c, loaded) ↦ elim (Result-cases (mutate c)) [
      | inr (e, failed) ↦ inl (refused e, ground (arith, loaded, failed))
      | inl (c', mutated) ↦ inr (c, c', loaded, mutated, ground (arith, loaded, mutated))
    ]
  ]

  -- Under the laws of the file system, Update returns a configuration only if the file could be loaded,
  -- the mutator returned a configuration for the loaded one and Validate reports nothing for it; what it
  -- returns is that configuration with the defaults of its zones, and the file then holds its text. If
  -- Update returns an error, the file is what it was before.
  pub update-Outcome :
      (path : Text) (mutate : Config → Result Failure Config) (s : d.State)
      → Outcome
          (manager_path path)
          mutate
          s
          (update d tools path mutate s).0
          (update d tools path mutate s).1
  update-Outcome path mutate s = elim (update-loaded path mutate s) [
    | inl (e, same) ↦ subst (Fine (manager_path path) mutate s) (sym same) (kept e refl)
    | inr (loaded, c, found, mutated, same) ↦
        subst (Fine (manager_path path) mutate s) (sym same)
          (replace-Fine path mutate loaded c s found mutated)
  ]

  -- the file behind a call that returned a configuration
  Outcome-read :
      (path : Text) (mutate : Config → Result Failure Config) (before after : d.State)
      (r : Result (ManagerError Failure ParseError) Config) (c : Config)
      → Outcome path mutate before after r
      → r ≡ ok c
      → (text : Text) × ((tools.yaml.encode (marshal c) ≡ ok text)
          × (d.read_file path after ≡ ok text))
  Outcome-read path mutate before after _ c (kept e same) h = absurd (cc h)
  Outcome-read path mutate before after _ c (stored loaded c' text l m valid encoded found) h =
      let same : record c' { zones = defaulted c'.zones } ≡ c = cc h in
      (text, (subst (λ x. tools.yaml.encode (marshal x) ≡ ok text) same encoded, found))

  manager_path-filled : (path : Text) → manager_path path ≢ []
  unfolding manager_path
  manager_path-filled path e = ground (arith, e, eq_iff path [])

  read_config-found :
      (path text : Text) (file : ConfigFile) (s : d.State)
      → path ≢ []
      → d.read_file path s ≡ ok text
      → tools.yaml.decode text ≡ ok (some file)
      → read_config d tools path s ≡ ok (unmarshal tools.env file)
  unfolding read_config
  read_config-found path text file s named found decoded =
      ground (arith, eq_iff path [], named, found, decoded)

  -- Under the laws of the file system, after Update has returned a configuration, the manager's file is
  -- read as the same one, but that its older copies of the data directory and the public addresses are
  -- those of the server section and its apps are grouped by domain in the order of the zones. This is
  -- where the YAML library decodes the text of the configuration as what it encoded, and where the
  -- configuration has a zone, distinct domains of zones, trimmed texts in its zones and apps (names and
  -- domains not empty), apps with their domain as their zone and in one of the zones, a data directory that
  -- is not blank and a normalized runtime.
  pub read_config-update :
      (path : Text) (mutate : Config → Result Failure Config) (s : d.State) (c : Config)
      → (update d tools path mutate s).1 ≡ ok c
      → IsSettled tools.env c
      → ((text : Text)
          → tools.yaml.encode (marshal c) ≡ ok text
          → tools.yaml.decode text ≡ ok (some (marshal c)))
      → read_config d tools (manager_path path) (update d tools path mutate s).0
        ≡ ok (record c {
          data_dir = c.server.data_dir;
          public_ip = c.server.public_ip;
          apps = grouped (domains c.zones) c.apps;
        })
  read_config-update path mutate s c done settled law =
      let (s', r) = update d tools path mutate s in
      let (text, (encoded, found)) =
        Outcome-read (manager_path path) mutate s s' r c (update-Outcome path mutate s) done in
      read_config-found (manager_path path) text (marshal c) s' (manager_path-filled path) found
        (law text encoded)
      ∙ ap ok (unmarshal-marshal tools.env c settled).0
