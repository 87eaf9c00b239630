-- ===== src/Providers/Spaceship.antt =====
-- internal/ddns/provider/spaceship.go: the records of a domain, page by page, and Upsert. The HTTP calls
-- are parameters.
pub mod Listing
use domux.Prelude.{
  ℕ, zero, suc, ◌+◌, Bool, true, false, not, ◌&&◌, ◌||◌, nat_eq, leb, Option, none, some, List, [],
  ◌∷◌, ◌++◌, if◌then◌else◌, is_empty, length,
}
use domux.Prelude.Int.{ℤ, pos, is_positive, int_eq, le_int}
use domux.Prelude.Result.{Result, ok, err}
use domux.Text.{Text, codes, ◌==◌}
use domux.Dns.RecordName.{RecordName, NameError, resolve_record_name}
use domux.Ddns.Service.{ProviderRecord}

pub record SpaceshipRecord : Type 0 where
  pub type : Text
  pub name : Text
  pub ttl : ℤ
  pub address : Text
  pub group : Text

-- the take parameter of a page
abbrev pub page_size : ℕ
page_size = 500

-- The calls of the service on its state: a page of records from an offset with the total, the deletion of
-- records, and the saving of one; strings.EqualFold
pub record Api (State Failure : Type 0) : Type 0 where
  pub page : Text → ℕ → State → Result Failure (List SpaceshipRecord × ℤ)
  pub delete_records : Text → List SpaceshipRecord → State → State × Option Failure
  pub save_record : Text → SpaceshipRecord → State → State × Option Failure
  pub equal_fold : Text → Text → Bool

pub data UpsertError (Failure : Type 0) : Type 0 where
  bad_name : NameError → UpsertError Failure
  failed : Failure → UpsertError Failure

-- defaultSpaceshipTTL
unfoldable pub default_spaceship_ttl : ℤ → ℤ
default_spaceship_ttl ttl = if is_positive ttl then ttl else pos 3600

-- Whether the loop over the pages ends: the page is empty, or the total is reached
abbrev pub complete : List SpaceshipRecord → List SpaceshipRecord → ℤ → Bool
complete items all total = is_empty items || le_int total (pos (length all))

abbrev told : {Failure : Type 0} → Option Failure → Option (UpsertError Failure)
told none = none
told (some e) = some (failed e)

module _ {State Failure : Type 0} (api : Api State Failure) where
  -- The loop of listRecords, on fuel; none where the fuel ends.
  unfoldable pub list_pages :
      Text → State → ℕ → ℕ → List SpaceshipRecord → Option (Result Failure (List SpaceshipRecord))
  list_pages domain s zero skip all = none
  list_pages domain s (suc fuel) skip all = elim (api.page domain skip s) [
    | err e ↦ some (err e)
    | ok (items, total) ↦
        let next = list_pages domain s fuel (skip + page_size) (all ++ items) in
        if complete items (all ++ items) total then some (ok (all ++ items)) else next
  ]

  unfoldable pub filter_spaceship_records :
      Text → Text → List SpaceshipRecord → List SpaceshipRecord
  filter_spaceship_records name type [] = []
  filter_spaceship_records name type (r ∷ rs) =
      let rest = filter_spaceship_records name type rs in
      if not (api.equal_fold r.group (codes "custom"))
      then rest
      else if not (api.equal_fold r.name name) || not (api.equal_fold r.type type)
      then rest
      else r ∷ rest

  unfoldable pub spaceship_records_equal : Text → Text → Text → ℤ → List SpaceshipRecord → Bool
  spaceship_records_equal name type value ttl (r ∷ []) =
      api.equal_fold r.name name
      && api.equal_fold r.type type
      && r.address == value
      && int_eq r.ttl ttl
  spaceship_records_equal name type value ttl _ = false

  -- Upsert behind listRecords: the matching records are replaced by the wanted one.
  unfoldable pub replace_matching :
      RecordName
      → ProviderRecord
      → List SpaceshipRecord
      → State
      → State × Option (UpsertError Failure)
  unfolding filter_spaceship_records spaceship_records_equal
  replace_matching resolved record_ existing s =
      let ttl = default_spaceship_ttl record_.ttl in
      let matching = filter_spaceship_records resolved.relative record_.type existing in
      let wanted : SpaceshipRecord = record {
        type = record_.type;
        name = resolved.relative;
        ttl = ttl;
        address = record_.value;
        group = [];
      } in
      let saved = λ (s' : State). api.save_record resolved.zone wanted s' in
      if spaceship_records_equal resolved.relative record_.type record_.value ttl matching
      then (s, none)
      else if is_empty matching
      then ((saved s).0, told (saved s).1)
      else (let (s', e) = api.delete_records resolved.zone matching s in
          elim e [ some x ↦ (s', some (failed x)) | none ↦ ((saved s').0, told (saved s').1) ])

  -- Upsert; none where the pages do not end within the fuel.
  unfoldable pub spaceship_upsert :
      ℕ → ProviderRecord → State → Option (State × Option (UpsertError Failure))
  unfolding list_pages replace_matching
  spaceship_upsert fuel record_ s =
      elim (resolve_record_name (if record_.zone == [] then record_.domain else record_.zone)
        record_.name) [
          | err e ↦ some (s, some (bad_name e))
          | ok resolved ↦ elim (list_pages resolved.zone s fuel 0 []) [
            | none ↦ none
            | some (err e) ↦ some (s, some (failed e))
            | some (ok existing) ↦ some (replace_matching resolved record_ existing s)
          ]
        ]
