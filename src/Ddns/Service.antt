-- ===== src/Ddns/Service.antt =====
-- internal/ddns/service/service.go: bringing the DNS records of a zone to the detected addresses.
-- The detector, the updaters, the resolver of authoritative zones, the store of states and the clock
-- are interfaces of the source, and parameters here. An updater's answer may depend on all calls so
-- far; the calls are recorded in the world. A list of errors stands for what errors.Join makes of it.
pub mod Record
pub mod Repeat
pub mod Upserts
pub mod Memory
use domux.Prelude.{
  ℕ, Bool, true, false, not, ◌&&◌, Option, none, some, List, [], ◌∷◌, ◌++◌, if◌then◌else◌, is_empty,
}
use domux.Prelude.Int.{ℤ, pos}
use domux.Prelude.Result.{Result, ok, err}
use domux.Text.{Text, codes, ◌==◌}
use domux.Mapping.{Mapping, get}
use domux.Core.Types.{ManagedZone, DdnsSyncState, Time}
use domux.Core.Names.{domain_within_managed_domain, star_dot}
use domux.Ddns.Errors.{
  Error, wrap_zone_resolution_failed, wrap_zone_access_denied, wrap_target_outside_managed_domain,
  is_access_denied,
}

abbrev pub type_a : Text
type_a = codes "A"

abbrev pub type_aaaa : Text
type_aaaa = codes "AAAA"

abbrev pub noop : Text
noop = codes "noop"

abbrev pub failed : Text
failed = codes "failed"

abbrev pub success : Text
success = codes "success"

-- ddnsprovider.Record
pub record ProviderRecord : Type 0 where
  pub domain : Text
  pub zone : Text
  pub name : Text
  pub type : Text
  pub value : Text
  pub ttl : ℤ

-- A call of Upsert, by the reference of its provider.
pub record Upsert : Type 0 where
  pub ref : Text
  pub record_ : ProviderRecord

pub record World (S : Type 0) : Type 0 where
  pub states : S
  pub upserts : List Upsert

-- ipdetect.Snapshot, without its time
pub record Snapshot : Type 0 where
  pub ipv4 : Text
  pub ipv6 : Text

-- StateStore: GetDDNSSyncState and PutDDNSSyncState
pub record StateStore (S : Type 0) : Type 0 where
  pub get_state : Text → Text → Text → Text → S → Option DdnsSyncState
  pub put_state : DdnsSyncState → S → S × List Error

pub record Service (S Updater : Type 0) : Type 0 where
  pub detector : Option (Bool → Bool → Snapshot × List Error)
  pub providers : Mapping Updater
  pub state_store : Option (StateStore S)
  pub resolve : Text → Result Error Text
  pub upsert : Updater → List Upsert → ProviderRecord → Option Error
  pub now : World S → Time
  pub unicode_lower : ℕ → ℕ

-- stateDomain
unfoldable pub state_domain : ManagedZone → Text
state_domain zone = if zone.domain == [] then zone.name else zone.domain

abbrev pub zero_state : DdnsSyncState
zero_state = record {
  domain = [];
  zone = [];
  provider = [];
  host = [];
  record_type = [];
  value = [];
  status = [];
  error = [];
  synced_at = 0;
}

-- What a call of syncRecord comes to: the world, the state that it returns and its errors.
abbrev pub Outcome : Type 0 → Type 0
Outcome S = World S × DdnsSyncState × List Error

module _ {S Updater : Type 0} (s : Service S Updater) where
  -- s.StateStore.PutDDNSSyncState, where there is a store
  unfoldable pub put_state : DdnsSyncState → World S → World S × List Error
  put_state state w = elim s.state_store [
    | none ↦ (w, [])
    | some store ↦
        let (states, errs) = store.put_state state w.states in (record w { states = states }, errs)
  ]

  -- whether the stored state makes an update needless
  unfoldable pub is_current : ManagedZone → Text → Text → Text → Text → World S → Bool
  is_current zone ref host record_type value w = elim s.state_store [
    | none ↦ false
    | some store ↦ elim (store.get_state (state_domain zone) ref host record_type w.states) [
      | none ↦ false
      | some previous ↦ previous.value == value && not (previous.status == failed)
    ]
  ]

  -- the state before its status is known
  unfoldable pub new_state :
      ManagedZone → Text → Text → Text → Text → Text → World S → DdnsSyncState
  new_state zone auth_zone ref host record_type value w = record {
    domain = state_domain zone;
    zone = auth_zone;
    provider = ref;
    host = host;
    record_type = record_type;
    value = value;
    status = [];
    error = [];
    synced_at = s.now w;
  }

  abbrev pub record_of : ManagedZone → Text → Text → Text → Text → ProviderRecord
  record_of zone auth_zone host record_type value = record {
    domain = zone.domain;
    zone = auth_zone;
    name = host;
    type = record_type;
    value = value;
    ttl = zone.ddns.ttl;
  }

  unfoldable pub finish : DdnsSyncState → List Error → World S → Outcome S
  finish state errs w = let (w', store_errs) = put_state state w in (w', state, errs ++ store_errs)

  -- an error of Upsert as syncRecord reports it
  unfoldable pub reported : Text → Error → Error
  reported auth_zone e =
      if is_access_denied s.unicode_lower e then wrap_zone_access_denied auth_zone e else e

  -- what follows the call of Upsert
  unfoldable pub after_upsert : Text → DdnsSyncState → Option Error → World S → Outcome S
  after_upsert auth_zone state none w = finish (record state { status = success }) [] w
  after_upsert auth_zone state (some e) w =
      finish (record state { status = failed; error = (reported auth_zone e).message })
        (reported auth_zone e ∷ []) w

  -- syncRecord
  unfoldable pub sync_record :
      Text → Updater → ManagedZone → Text → Text → Text → World S → Outcome S
  sync_record ref updater zone host record_type value w =
      if not (domain_within_managed_domain zone.domain host)
      then (w, zero_state, wrap_target_outside_managed_domain zone.domain host ∷ [])
      else elim (s.resolve host) [
        | err e ↦ (w, zero_state, wrap_zone_resolution_failed host e ∷ [])
        | ok auth_zone ↦
            let state = new_state zone auth_zone ref host record_type value w in
            let r = record_of zone auth_zone host record_type value in
            let call : Upsert = record { ref = ref; record_ = r } in
            if is_current zone ref host record_type value w
            then finish (record state { status = noop }) [] w
            else after_upsert auth_zone state (s.upsert updater w.upserts r)
                (record w { upserts = w.upserts ++ call ∷ [] })
      ]

  -- The world, the states and the errors that SyncZone has gathered.
  abbrev pub Gathered : Type 0
  Gathered = World S × List DdnsSyncState × List Error

  -- A call of syncRecord whose results are gathered
  unfoldable pub gather : Text → Updater → ManagedZone → Text → Text → Text → Gathered → Gathered
  gather ref updater zone host record_type value (w, states, errs) =
      let (w', state, errs') = sync_record ref updater zone host record_type value w in
      (w', (if state.host == [] then states else states ++ state ∷ []), errs ++ errs')

  -- One address family of one provider
  unfoldable pub sync_family :
      Text → Updater → ManagedZone → Bool → Text → Text → Gathered → Gathered
  unfolding gather
  sync_family ref updater zone enabled record_type value g =
      let g' = gather ref updater zone zone.domain record_type value g in
      let g'' = gather ref updater zone (star_dot ++ zone.domain) record_type value g' in
      if enabled && not (value == []) then (if zone.ddns.wildcard then g'' else g') else g

  abbrev not_registered : Text → Error
  not_registered ref = record {
    wraps = none;
    message = codes "ddns provider not registered: " ++ ref;
  }

  -- One provider
  unfoldable pub sync_provider : ManagedZone → Snapshot → Text → Gathered → Gathered
  unfolding sync_family
  sync_provider zone snap ref g = elim (get ref s.providers) [
    | none ↦ (g.0, g.1, g.2 ++ not_registered ref ∷ [])
    | some updater ↦
        sync_family ref updater zone zone.ddns.ipv6 type_aaaa snap.ipv6
          (sync_family ref updater zone zone.ddns.ipv4 type_a snap.ipv4 g)
  ]

  -- The loop of SyncZone
  unfoldable pub sync_providers : ManagedZone → Snapshot → List Text → Gathered → Gathered
  unfolding sync_provider
  sync_providers zone snap [] g = g
  sync_providers zone snap (ref ∷ refs) g =
      sync_providers zone snap refs (sync_provider zone snap ref g)

  abbrev no_result : Text → Error
  no_result family = record {
    wraps = none;
    message = codes "public " ++ family ++ codes " address detection returned no result";
  }

  -- the errors before the loop
  unfoldable pub detection_errors : ManagedZone → Snapshot → List Error → List Error
  detection_errors zone snap (e ∷ es) = e ∷ es
  detection_errors zone snap [] =
      (if zone.ddns.ipv4 && snap.ipv4 == [] then no_result (codes "IPv4") ∷ [] else [])
      ++ (if zone.ddns.ipv6 && snap.ipv6 == [] then no_result (codes "IPv6") ∷ [] else [])

  unfoldable pub detected : ManagedZone → Snapshot → List Error → World S → Gathered
  unfolding sync_providers detection_errors
  detected zone snap errs w =
      if not (is_empty errs) && snap.ipv4 == [] && snap.ipv6 == []
      then (w, [], errs)
      else sync_providers zone snap zone.ddns.provider_refs (w, [], detection_errors zone snap errs)

  -- SyncZone
  unfoldable pub sync_zone : ManagedZone → World S → Gathered
  unfolding detected
  sync_zone zone w = if not zone.ddns.enabled then (w, [], []) else elim s.detector [
    | none ↦
        (w, [], record { wraps = none; message = codes "ddns detector is not configured" } ∷ [])
    | some detect ↦
        let (snap, errs) = detect zone.ddns.ipv4 zone.ddns.ipv6 in detected zone snap errs w
  ]
