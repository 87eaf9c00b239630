-- ===== src/Ddns/Service/Memory.antt =====
-- The memory store as the store of states of the DDNS service.
use domux.Prelude.{◌≡◌, ◌≢◌, some, [], arith}
use domux.Text.Equality.{eq_iff, ==_refl}
use domux.Mapping.{get-put}
use domux.Core.Types.{DdnsSyncState}
use domux.Store.{MemoryStore, with_domain, ddns_state_key, put_ddns_sync_state, get_ddns_sync_state}
use domux.Ddns.Service.{StateStore}
use domux.Ddns.Service.Repeat.{IsStateStore}

abbrev pub memory_states : StateStore MemoryStore
memory_states = record {
  get_state = get_ddns_sync_state;
  put_state = λ state s. (put_ddns_sync_state state s, []);
}

put_found :
    (st : DdnsSyncState) (s : MemoryStore)
    → st.domain ≢ []
    → st.zone ≢ []
    → get_ddns_sync_state st.domain st.provider st.host st.record_type (put_ddns_sync_state st s)
      ≡ some st
unfolding get_ddns_sync_state put_ddns_sync_state with_domain
put_found st s d z =
    let key = ddns_state_key st.domain st.provider st.host st.record_type in
    ground (arith, eq_iff st.domain [], eq_iff st.zone [], get-put key key st s.ddns, ==_refl key)

-- The memory store gives back a state that has just been put into it.
pub memory_states-IsStateStore : IsStateStore memory_states
memory_states-IsStateStore = record { found = λ st s d z clean. put_found st s d z }
