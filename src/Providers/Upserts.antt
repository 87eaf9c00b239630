-- ===== src/Providers/Upserts.antt =====
-- The Upsert methods of internal/ddns/provider/cloudflare.go, alidns.go and godaddy.go. The requests of each
-- service, with the decoding of their answers, are parameters that act on the service's state.
use domux.Prelude.{Bool, true, false, ◌&&◌, Option, none, some, List, [], ◌∷◌, if◌then◌else◌}
use domux.Prelude.Int.{ℤ, pos, is_zero, is_positive, int_eq, le_int}
use domux.Prelude.Result.{Result, ok, err}
use domux.Text.{Text, ◌==◌}
use domux.Text.Decimal.{atoi}
use domux.Dns.RecordName.{RecordName, NameError, resolve_record_name, ali_dns_sub_domain}
use domux.Ddns.Service.{ProviderRecord}

pub data UpsertError (Failure : Type 0) : Type 0 where
  bad_name : NameError → UpsertError Failure
  failed : Failure → UpsertError Failure
  lookup_failed no_record_id : UpsertError Failure
  zone_not_found : Text → UpsertError Failure

-- the name of a record, in its zone or else in its domain
unfoldable pub resolved_name : ProviderRecord → Result NameError RecordName
resolved_name r = resolve_record_name (if r.zone == [] then r.domain else r.zone) r.name

abbrev pub told : {Failure : Type 0} → Option Failure → Option (UpsertError Failure)
told none = none
told (some e) = some (failed e)

pub record CloudflareRecord : Type 0 where
  pub id : Text
  pub type : Text
  pub name : Text
  pub content : Text
  pub ttl : ℤ

-- The requests of Cloudflare: the ids of the active zones of a name and the records of a name and type,
-- each with the field `success`, and the two that write
pub record CloudflareApi (State Failure : Type 0) : Type 0 where
  pub zones : Text → State → Result Failure (Bool × List Text)
  pub records : Text → Text → Text → State → Result Failure (Bool × List CloudflareRecord)
  pub post : Text → CloudflareRecord → State → State × Option Failure
  pub put_record : Text → Text → CloudflareRecord → State → State × Option Failure

module _ {State Failure : Type 0} (api : CloudflareApi State Failure) where
  -- getZoneID
  unfoldable pub get_zone_id : Text → State → Result (UpsertError Failure) Text
  get_zone_id zone s = elim (api.zones zone s) [
    | err e ↦ err (failed e)
    | ok (false, ids) ↦ err lookup_failed
    | ok (true, []) ↦ err (zone_not_found zone)
    | ok (true, id ∷ ids) ↦ ok id
  ]

  -- getRecords
  unfoldable pub get_records :
      Text → Text → Text → State → Result (UpsertError Failure) (List CloudflareRecord)
  get_records zone_id fqdn type s = elim (api.records zone_id fqdn type s) [
    | err e ↦ err (failed e)
    | ok (false, records) ↦ err lookup_failed
    | ok (true, records) ↦ ok records
  ]

  -- the record that Upsert writes
  abbrev pub wanted : RecordName → ProviderRecord → CloudflareRecord
  wanted name r = record {
    id = [];
    type = r.type;
    name = name.fqdn;
    content = r.value;
    ttl = if is_zero r.ttl then pos 1 else r.ttl;
  }

  -- the decision of Upsert behind the lookups
  unfoldable pub cloudflare_write :
      Text → CloudflareRecord → List CloudflareRecord → State → State × Option (UpsertError Failure)
  cloudflare_write zone_id payload [] s = let (s', e) = api.post zone_id payload s in (s', told e)
  cloudflare_write zone_id payload (found ∷ more) s =
      let (s', e) = api.put_record zone_id found.id (record payload { id = found.id }) s in
      if found.content == payload.content && int_eq found.ttl payload.ttl
      then (s, none)
      else (s', told e)

  unfoldable pub cloudflare_upsert : ProviderRecord → State → State × Option (UpsertError Failure)
  unfolding resolved_name get_zone_id get_records cloudflare_write
  cloudflare_upsert r s = elim (resolved_name r) [
    | err e ↦ (s, some (bad_name e))
    | ok name ↦ elim (get_zone_id name.zone s) [
      | err e ↦ (s, some e)
      | ok zone_id ↦ elim (get_records zone_id name.fqdn r.type s) [
        | err e ↦ (s, some e)
        | ok existing ↦ cloudflare_write zone_id (wanted name r) existing s
      ]
    ]
  ]

pub record AliDnsRecord : Type 0 where
  pub record_id : Text
  pub value : Text

-- defaultAliDNSTTL
unfoldable pub default_alidns_ttl : ℤ → ℤ
default_alidns_ttl ttl = if is_positive ttl then ttl else pos 600

-- The signed requests of AliDNS: the total and the records of a subdomain and type, and the two that
-- write, which answer with the id of the record
pub record AliDnsApi (State Failure : Type 0) : Type 0 where
  pub describe : Text → Text → Text → State → Result Failure (ℤ × List AliDnsRecord)
  pub add : RecordName → Text → Text → ℤ → State → State × Result Failure Text
  pub update : Text → RecordName → Text → Text → ℤ → State → State × Result Failure Text

-- an answer without an id is an error
abbrev pub with_id : {Failure : Type 0} → Result Failure Text → Option (UpsertError Failure)
with_id (err e) = some (failed e)
with_id (ok id) = if id == [] then some no_record_id else none

module _ {State Failure : Type 0} (api : AliDnsApi State Failure) where
  -- Upsert behind DescribeSubDomainRecords; none where the source indexes an empty slice
  unfoldable pub alidns_write :
      RecordName
      → ProviderRecord
      → ℤ
      → List AliDnsRecord
      → State
      → Option (State × Option (UpsertError Failure))
  alidns_write name r total records s =
      let ttl = default_alidns_ttl r.ttl in
      if is_positive total
      then elim records [
        | [] ↦ none
        | selected ∷ more ↦
            let (s', answer) = api.update selected.record_id name r.type r.value ttl s in
            if selected.value == r.value then some (s, none) else some (s', with_id answer)
      ]
      else (let (s', answer) = api.add name r.type r.value ttl s in some (s', with_id answer))

  unfoldable pub alidns_upsert :
      ProviderRecord → State → Option (State × Option (UpsertError Failure))
  unfolding resolved_name alidns_write
  alidns_upsert r s = elim (resolved_name r) [
    | err e ↦ some (s, some (bad_name e))
    | ok name ↦ elim (api.describe name.zone (ali_dns_sub_domain name) r.type s) [
      | err e ↦ some (s, some (failed e))
      | ok (total, records) ↦ alidns_write name r total records s
    ]
  ]

-- defaultGoDaddyTTL
unfoldable pub default_godaddy_ttl : ℤ → ℤ
default_godaddy_ttl ttl = if le_int (pos 600) ttl then ttl else pos 600

-- parseGoDaddyTTL
unfoldable pub parse_godaddy_ttl : Text → ℤ
unfolding default_godaddy_ttl
parse_godaddy_ttl raw =
    if raw == []
    then pos 600
    else elim (atoi raw) [ none ↦ pos 600 | some ttl ↦ default_godaddy_ttl ttl ]

-- GoDaddy's Upsert, over the request that replaces the records of a name and type by a value and its ttl
unfoldable pub godaddy_upsert :
    {State Failure : Type 0}
    → (RecordName → Text → Text → ℤ → State → State × Option Failure)
    → ProviderRecord
    → State
    → State × Option (UpsertError Failure)
unfolding resolved_name default_godaddy_ttl
godaddy_upsert put_records r s = elim (resolved_name r) [
  | err e ↦ (s, some (bad_name e))
  | ok name ↦
      (let (s', e) = put_records name r.type r.value (default_godaddy_ttl r.ttl) s in (s', told e))
]
