-- ===== src/Tests/Syncing.antt =====
-- The theorems on the store and on the synchronization of DNS records, applied.

use domux.Prelude.{◌≡◌, ◌≢◌, refl, Bool, true, false, some, none, List, [], ◌∷◌}
use domux.Prelude.Result.{ok}
use domux.Text.{
  Text, codes, ◌==◌, trim_space, trim_left, trim_right, is_space, trim_prefix, trim_suffix,
  cut_prefix, cut_suffix, has_prefix, has_suffix,
}
use domux.Mapping.{get, put}
use domux.Core.Names.{domain_within_managed_domain}
use domux.Store.{
  MemoryStore, new_memory_store, with_domain, put_ddns_sync_state, get_ddns_sync_state,
  ddns_state_key,
}
use domux.Store.Calls.{Call, put_domain, delete_domain, perform_all}
use domux.Store.Keyed.{IsKeyedStore}
use domux.Store.Tables.{reachable-IsKeyedStore}
use domux.Ddns.Errors.{Error}
use domux.Ddns.Service.{
  World, Service, Snapshot, sync_record, sync_zone, state_domain, noop, is_current, put_state,
  finish, after_upsert, new_state,
}
use domux.Ddns.Service.Record.{Called, sync_record-Called}
use domux.Ddns.Service.Repeat.{sync_record_twice}
use domux.Ddns.Service.Upserts.{Extends, sync_zone-Extends}
use domux.Ddns.Service.Memory.{memory_states, memory_states-IsStateStore}
use domux.Tests.{example_org, app_example_org, zone, env}

abbrev cf : Text
cf = codes "cf"

abbrev a_type : Text
a_type = codes "A"

abbrev address : Text
address = codes "192.0.2.1"

abbrev calls : List Call
calls = put_domain zone ∷ delete_domain example_org ∷ put_domain zone ∷ []

reachable-IsKeyedStore_example : IsKeyedStore env (perform_all env calls new_memory_store)
reachable-IsKeyedStore_example = reachable-IsKeyedStore env calls

abbrev detect : Bool → Bool → Snapshot × List Error
detect v4 v6 = (record { ipv4 = address; ipv6 = [] }, [])

-- A service over the memory store, whose one updater accepts every record.
abbrev service : Service MemoryStore Unit
service = record {
  detector = some detect;
  providers = (cf, tt) ∷ [];
  state_store = some memory_states;
  resolve = λ host. ok example_org;
  upsert = λ updater calls r. none;
  now = λ w. 7;
  unicode_lower = λ c. c;
}

abbrev world : World MemoryStore
world = record { states = new_memory_store; upserts = [] }

sync_record-Called_example :
    Called service cf tt zone app_example_org a_type address world
      (sync_record service cf tt zone app_example_org a_type address world).0.upserts
sync_record-Called_example =
    sync_record-Called service cf tt zone app_example_org a_type address world

clean : (sync_record service cf tt zone app_example_org a_type address world).2 ≡ []
unfolding sync_record is_current put_state finish after_upsert new_state put_ddns_sync_state
    get_ddns_sync_state state_domain domain_within_managed_domain with_domain get put ddns_state_key
    trim_space trim_left trim_right is_space trim_prefix trim_suffix cut_prefix cut_suffix
    has_prefix has_suffix ◌==◌
clean = refl

org_filled : example_org ≢ []
org_filled = cc

state_domain_filled : state_domain zone ≢ []
unfolding state_domain ◌==◌
state_domain_filled = cc

within : domain_within_managed_domain example_org app_example_org ≡ true
unfolding domain_within_managed_domain trim_space trim_left trim_right is_space trim_prefix
    trim_suffix cut_prefix cut_suffix has_prefix has_suffix ◌==◌
within = refl

abbrev after : World MemoryStore
after = (sync_record service cf tt zone app_example_org a_type address world).0

sync_record_twice_example :
    ((sync_record service cf tt zone app_example_org a_type address after).0.upserts
      ≡ after.upserts)
    × ((sync_record service cf tt zone app_example_org a_type address after).1.status ≡ noop)
sync_record_twice_example =
    sync_record_twice service memory_states cf tt zone app_example_org a_type address example_org
      world refl memory_states-IsStateStore state_domain_filled within refl org_filled clean

sync_zone-Extends_example :
    Extends service zone (detect true false).0 world (sync_zone service zone world).0
sync_zone-Extends_example = sync_zone-Extends service zone detect world refl refl
