-- ===== src/Ddns/Service/Record.antt =====
-- What a call of syncRecord does.
use domux.Prelude.{
  ◌≡◌, ◌≢◌, ◌⊎◌, ap, ◌∙◌, true, false, refl, not, ◌&&◌, Option, none, some, List, [], ◌∷◌, ◌++◌,
  arith, Bool-cases, Option-cases, inl, inr, if◌then◌else◌, append-nil,
}
use domux.Prelude.Result.{ok, err, Result-cases}
use domux.Text.{Text, ◌==◌}
use domux.Text.Equality.{eq_iff}
use domux.Core.Types.{ManagedZone, DdnsSyncState}
use domux.Core.Names.{domain_within_managed_domain}
use domux.Ddns.Errors.{Error}
use domux.Ddns.Service.{
  World, Service, StateStore, Upsert, state_domain, put_state, is_current, new_state, record_of,
  finish, reported, after_upsert, sync_record, noop, failed, success,
}

module _ {S Updater : Type 0} (s : Service S Updater) where
  put_state_upserts : (st : DdnsSyncState) (w : World S) → (put_state s st w).0.upserts ≡ w.upserts
  unfolding put_state
  put_state_upserts st w = elim (Option-cases s.state_store) [
    | inl nil ↦ rw nil
    | inr (store, e) ↦ rw e
  ]

  pub finish_upserts :
      (st : DdnsSyncState) (errs : List Error) (w : World S)
      → (finish s st errs w).0.upserts ≡ w.upserts
  unfolding finish
  finish_upserts st errs w = put_state_upserts st w

  pub finish_status :
      (st : DdnsSyncState) (errs : List Error) (w : World S)
      → (finish s st errs w).1.status ≡ st.status
  unfolding finish
  finish_status st errs w = refl

  after_upsert_upserts :
      (z : Text) (st : DdnsSyncState) (e : Option Error) (w : World S)
      → (after_upsert s z st e w).0.upserts ≡ w.upserts
  unfolding after_upsert
  after_upsert_upserts z st none w = finish_upserts (record st { status = success }) [] w
  after_upsert_upserts z st (some e) w =
      finish_upserts (record st { status = failed; error = (reported s z e).message })
        (reported s z e ∷ []) w

  module _ (ref : Text) (updater : Updater) (zone : ManagedZone) (host record_type value : Text)
      (w : World S) where
    -- the calls of Upsert that are due
    unfoldable pub due : List Upsert
    due =
        if domain_within_managed_domain zone.domain host
          && not (is_current s zone ref host record_type value w)
        then elim (s.resolve host) [
          | err e ↦ []
          | ok auth_zone ↦
              record { ref = ref; record_ = record_of s zone auth_zone host record_type value } ∷ []
        ]
        else []

    pub sync_record-due :
        (sync_record s ref updater zone host record_type value w).0.upserts ≡ w.upserts ++ due
    unfolding sync_record due
    sync_record-due = elim (Bool-cases (domain_within_managed_domain zone.domain host)) [
      | inr outside ↦ ground (arith, append-nil w.upserts)
      | inl within ↦ elim (Result-cases (s.resolve host)) [
        | inr (e, none_found) ↦ ground (arith, append-nil w.upserts)
        | inl (auth_zone, found) ↦
            let st = new_state s zone auth_zone ref host record_type value w in
            let r = record_of s zone auth_zone host record_type value in
            let call : Upsert = record { ref = ref; record_ = r } in
            ground (
              arith,
              append-nil w.upserts,
              finish_upserts (record st { status = noop }) [] w,
              after_upsert_upserts auth_zone st (s.upsert updater w.upserts r)
                  (record w { upserts = w.upserts ++ call ∷ [] }),
            )
      ]
    ]

    -- The store has a state of the record with this value, and it has not failed.
    abbrev pub IsUpToDate : Type 0
    IsUpToDate =
        (store : StateStore S) × ((s.state_store ≡ some store)
          × ((previous : DdnsSyncState) × ((store.get_state (state_domain zone) ref host record_type
                    w.states
                  ≡ some previous)
                × ((previous.value ≡ value) × (previous.status ≢ failed)))))

    -- The calls of Upsert after a call of syncRecord: one more, or no more.
    pub data Called (calls : List Upsert) : Type 0 where
      once :
          (auth_zone : Text)
          → domain_within_managed_domain zone.domain host ≡ true
          → s.resolve host ≡ ok auth_zone
          → ¬ IsUpToDate
          → calls
            ≡ w.upserts
              ++ record {
                ref = ref;
                record_ = record {
                  domain = zone.domain;
                  zone = auth_zone;
                  name = host;
                  type = record_type;
                  value = value;
                  ttl = zone.ddns.ttl;
                };
              }
                ∷ []
          → Called calls
      outside :
          domain_within_managed_domain zone.domain host ≡ false → calls ≡ w.upserts → Called calls
      unresolved : (e : Error) → s.resolve host ≡ err e → calls ≡ w.upserts → Called calls
      up_to_date : IsUpToDate → calls ≡ w.upserts → Called calls

    is_current-cases :
        ((is_current s zone ref host record_type value w ≡ true) × IsUpToDate)
        ⊎ ((is_current s zone ref host record_type value w ≡ false) × (¬ IsUpToDate))
    unfolding is_current
    is_current-cases = elim (Option-cases s.state_store) [
      | inl nil ↦ inr (ground (arith, nil), λ h. cc (nil, h.1.0))
      | inr (store, has) ↦
          elim (Option-cases (store.get_state (state_domain zone) ref host record_type w.states)) [
            | inl missing ↦
                inr (ground (arith, has, missing), λ h. cc (has, missing, h.1.0, h.1.1.1.0))
            | inr (previous, found) ↦
                elim (Bool-cases (previous.value == value && not (previous.status == failed))) [
                  | inl same ↦ inl (
                    ground (arith, has, found, same),
                    (
                      store,
                      (
                        has,
                        (
                          previous,
                          (
                            found,
                            ((
                              ground (arith, same, eq_iff previous.value value),
                              λ e. ground (arith, same, e, eq_iff previous.status failed),
                            )),
                          ),
                        ),
                      ),
                    ),
                  )
                  | inr other ↦ inr (
                    ground (arith, has, found, other),
                    λ h.
                        (let there : some previous ≡ some h.1.1.0 =
                            cc (has, found, h.1.0, h.1.1.1.0) in
                          ground (
                            arith,
                            there,
                            other,
                            h.1.1.1.1.0,
                            h.1.1.1.1.1,
                            eq_iff previous.value value,
                            eq_iff previous.status failed,
                          )),
                  )
                ]
          ]
    ]

    due-once :
        (z : Text)
        → domain_within_managed_domain zone.domain host ≡ true
        → s.resolve host ≡ ok z
        → is_current s zone ref host record_type value w ≡ false
        → due ≡ record { ref = ref; record_ = record_of s zone z host record_type value } ∷ []
    unfolding due
    due-once z within found fresh = ground (arith, within, found, fresh)

    due-outside : domain_within_managed_domain zone.domain host ≡ false → due ≡ []
    unfolding due
    due-outside h = ground (arith, h)

    due-unresolved : (e : Error) → s.resolve host ≡ err e → due ≡ []
    unfolding due
    due-unresolved e h = ground (arith, h)

    due-current : is_current s zone ref host record_type value w ≡ true → due ≡ []
    unfolding due
    due-current h = ground (arith, h)

    abbrev calls : List Upsert
    calls = (sync_record s ref updater zone host record_type value w).0.upserts

    calls_same : due ≡ [] → calls ≡ w.upserts
    calls_same h = sync_record-due ∙ ap (λ us. w.upserts ++ us) h ∙ append-nil w.upserts

    -- syncRecord calls Upsert once, with the zone's domain and TTL, its authoritative zone, and the host,
    -- type and value that it is given, if the host lies within the zone's domain, the authoritative zone
    -- is found, and no state of this value that has not failed is stored for the record. Otherwise it
    -- makes no call.
    pub sync_record-Called :
        Called (sync_record s ref updater zone host record_type value w).0.upserts
    sync_record-Called = elim (Bool-cases (domain_within_managed_domain zone.domain host)) [
      | inr away ↦ outside away (calls_same (due-outside away))
      | inl within ↦ elim (Result-cases (s.resolve host)) [
        | inr (e, none_found) ↦ unresolved e none_found (calls_same (due-unresolved e none_found))
        | inl (z, found) ↦ elim is_current-cases [
          | inl (current, stored) ↦ up_to_date stored (calls_same (due-current current))
          | inr (fresh, other) ↦
              once z within found other
                (sync_record-due ∙ ap (λ us. w.upserts ++ us) (due-once z within found fresh))
        ]
      ]
    ]
