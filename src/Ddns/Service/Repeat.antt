-- ===== src/Ddns/Service/Repeat.antt =====
-- Two calls of syncRecord, one after the other.
use domux.Prelude.{
  ◌≡◌, ◌≢◌, refl, sym, ap, ◌∙◌, true, false, Option, some, [], ◌∷◌, ◌++◌, arith, Bool-cases,
  Option-cases, inl, inr,
}
use domux.Prelude.Result.{ok}
use domux.Text.{Text, ◌==◌}
use domux.Text.Equality.{eq_iff}
use domux.Core.Types.{ManagedZone, DdnsSyncState}
use domux.Core.Names.{domain_within_managed_domain}
use domux.Ddns.Errors.{Error}
use domux.Ddns.Service.{
  World, Service, StateStore, Outcome, put_state, is_current, new_state, record_of, finish,
  reported, after_upsert, sync_record, noop, failed, success, state_domain,
}
use domux.Ddns.Service.Record.{finish_upserts, finish_status}

-- What the service relies on of a store of states: a state that was put without an error, and that
-- names its domain and zone, is found again.
pub record IsStateStore {S : Type 0} (store : StateStore S) : Type 0 where
  pub found :
      (st : DdnsSyncState) (x : S)
      → st.domain ≢ []
      → st.zone ≢ []
      → (store.put_state st x).1 ≡ []
      → store.get_state st.domain st.provider st.host st.record_type (store.put_state st x).0
        ≡ some st

module _ {S Updater : Type 0} (s : Service S Updater) (store : StateStore S)
    (has_store : s.state_store ≡ some store) (law : IsStateStore store) (ref : Text)
    (updater : Updater) (zone : ManagedZone) (host record_type value : Text)
    (named : state_domain zone ≢ []) where
  -- a state of this record that is stored and not failed is current
  finish_current :
      (st : DdnsSyncState) (w : World S)
      → st.domain ≡ state_domain zone
      → st.zone ≢ []
      → st.provider ≡ ref
      → st.host ≡ host
      → st.record_type ≡ record_type
      → st.value ≡ value
      → (st.status == failed) ≡ false
      → (finish s st [] w).2 ≡ []
      → is_current s zone ref host record_type value (finish s st [] w).0 ≡ true
  unfolding finish put_state is_current
  finish_current st w d z p h t v good clean =
      ground (arith, law.found st w.states, eq_iff st.value value)

  module _ (auth_zone : Text) (w : World S)
      (within : domain_within_managed_domain zone.domain host ≡ true)
      (resolved : s.resolve host ≡ ok auth_zone) where
    abbrev st : DdnsSyncState
    st = new_state s zone auth_zone ref host record_type value w

    abbrev called : World S
    called = record w {
      upserts =
          w.upserts
          ++ record { ref = ref; record_ = record_of s zone auth_zone host record_type value } ∷ [];
    }

    abbrev answer : Option Error
    answer = s.upsert updater w.upserts (record_of s zone auth_zone host record_type value)

    -- what syncRecord comes to where the state is current, and where it is not
    when_current :
        is_current s zone ref host record_type value w ≡ true
        → sync_record s ref updater zone host record_type value w
          ≡ finish s (record st { status = noop }) [] w
    unfolding sync_record
    when_current current = ground arith

    when_stale :
        is_current s zone ref host record_type value w ≡ false
        → sync_record s ref updater zone host record_type value w
          ≡ after_upsert s auth_zone st answer called
    unfolding sync_record
    when_stale stale = ground arith

    finish_error : (x : DdnsSyncState) (e : Error) (v : World S) → (finish s x (e ∷ []) v).2 ≢ []
    unfolding finish
    finish_error x e v h = cc

    -- the outcome of a call without errors
    clean_finish :
        (sync_record s ref updater zone host record_type value w).2 ≡ []
        → (status : Text) × (v : World S) × (sync_record s ref updater zone host record_type value w
            ≡ finish s (record st { status = status }) [] v)
          × ((status == failed) ≡ false)
    unfolding after_upsert ◌==◌
    clean_finish clean = elim (Bool-cases (is_current s zone ref host record_type value w)) [
      | inl current ↦ (noop, w, when_current current, refl)
      | inr stale ↦ elim (Option-cases answer) [
        | inl fine ↦ (
          success,
          called,
          when_stale stale ∙ ap (λ a. after_upsert s auth_zone st a called) fine,
          refl,
        )
        | inr (e, wrong) ↦ absurd (
            finish_error (record st { status = failed; error = (reported s auth_zone e).message })
              (reported s auth_zone e) called
              (ap (λ (o : Outcome S). o.2)
                  (sym (when_stale stale ∙ ap (λ a. after_upsert s auth_zone st a called) wrong))
                ∙ clean))
      ]
    ]

    clean_current :
        auth_zone ≢ []
        → (sync_record s ref updater zone host record_type value w).2 ≡ []
        → is_current s zone ref host record_type value
            (sync_record s ref updater zone host record_type value w).0
          ≡ true
    unfolding new_state
    clean_current filled clean =
        let (status, v, outcome, good) = clean_finish clean in
        let now_clean : (finish s (record st { status = status }) [] v).2 ≡ [] =
          ap (λ (o : Outcome S). o.2) (sym outcome) ∙ clean in
        ap (λ (o : Outcome S). is_current s zone ref host record_type value o.0) outcome
        ∙ finish_current (record st { status = status }) v refl filled refl refl refl refl good
            now_clean

-- After a call of syncRecord without errors, a second call for the same record and value makes no call
-- of Upsert and reports "noop", whatever the updater would answer, if the store of states keeps what
-- is put into it, the zone has a domain or a name, and its authoritative zone is found.
pub sync_record_twice :
    {S Updater : Type 0} (s : Service S Updater) (store : StateStore S) (ref : Text)
    (updater : Updater) (zone : ManagedZone) (host record_type value auth_zone : Text) (w : World S)
    → s.state_store ≡ some store
    → IsStateStore store
    → state_domain zone ≢ []
    → domain_within_managed_domain zone.domain host ≡ true
    → s.resolve host ≡ ok auth_zone
    → auth_zone ≢ []
    → (sync_record s ref updater zone host record_type value w).2 ≡ []
    → ((sync_record s ref updater zone host record_type value
          (sync_record s ref updater zone host record_type value w).0).0.upserts
        ≡ (sync_record s ref updater zone host record_type value w).0.upserts)
      × ((sync_record s ref updater zone host record_type value
            (sync_record s ref updater zone host record_type value w).0).1.status
          ≡ noop)
sync_record_twice s store ref updater zone host record_type value auth_zone w has law named within
      resolved filled clean =
    let w' = (sync_record s ref updater zone host record_type value w).0 in
    let current =
      clean_current s store has law ref updater zone host record_type value named auth_zone w within
        resolved filled clean in
    let again =
      when_current s store has law ref updater zone host record_type value named auth_zone w' within
        resolved current in
    (
      ap (λ (o : Outcome _). o.0.upserts) again
          ∙ finish_upserts s
              (record (new_state s zone auth_zone ref host record_type value w') { status = noop })
              [] w',
      ap (λ (o : Outcome _). o.1.status) again
          ∙ finish_status s
              (record (new_state s zone auth_zone ref host record_type value w') { status = noop })
              [] w',
    )
