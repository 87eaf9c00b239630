-- ===== src/Program/Applications/Explained.antt =====
-- The status and the reason of an application.
use domux.Prelude.{
  ◌≡◌, ◌⊎◌, refl, Bool, true, false, not, ◌&&◌, Option, none, some, List, [], ◌∷◌, arith, inl, inr,
  if◌then◌else◌, Bool-cases, All, All-append, is_some, is_empty,
}
use domux.Prelude.Result.{Result, ok, err}
use domux.Text.{Text, ◌==◌, to_lower}
use domux.Mapping.{Mapping, get}
use domux.Sort.{by_key, by_key_then}
use domux.Core.Types.{
  ManagedZone, ContainerSnapshot, DiscoveredRoute, Application, origin_custom_app,
}
use domux.Core.Names.{elem}
use domux.Core.Runtime.{Env}
use domux.Discovery.Labels.{RouteIntent, LabelError, parse_labels, default_label_prefix}
use domux.Program.Routes.Hosts.{All-sort}
use domux.Program.Applications.{
  DiscoveredSnapshots, application_from_route, label_message, productize_discovery_error,
  application_intake_reason, intent_of, unrouted_application, application_from_snapshot, routed,
  mark_conflict, snapshot_application, node_applications, snapshot_applications, build_applications,
  status_proxied, status_unproxied, container_key, source_node_name,
}

-- Served, or not served for a reason that is given
pub data IsExplained (a : Application) : Type 0 where
  served : a.status ≡ status_proxied → a.reason ≡ [] → IsExplained a
  refused : a.status ≡ status_unproxied → is_empty a.reason ≡ false → IsExplained a

productize-is_empty :
    (m : Text) → is_empty m ≡ false → is_empty (productize_discovery_error m) ≡ false
unfolding productize_discovery_error
productize-is_empty m h = ground (arith, h)

label_message-is_empty :
    (quote : Text → Text) (e : LabelError) → is_empty (label_message quote e) ≡ false
unfolding label_message
label_message-is_empty quote (LabelError.conflicting a b) = refl
label_message-is_empty quote (LabelError.invalid_port a b) = refl

reason-is_empty :
    (zones : List ManagedZone) (intent : RouteIntent) (message : Option Text) (target host : Text)
    → (message ≡ none) ⊎ ((m : Text) × ((message ≡ some m) × (is_empty m ≡ false)))
    → is_empty (application_intake_reason zones intent message target host) ≡ false
unfolding application_intake_reason
reason-is_empty zones intent message target host (inl nothing) = ground (arith, nothing)
reason-is_empty zones intent message target host (inr (m, (e, h))) =
    ground (arith, e, productize-is_empty m h)

module _ (env : Env) (exists : Text → Bool) (http_url quote : Text → Text)
    (zones : List ManagedZone) where
  unrouted-IsExplained :
      (entry : DiscoveredSnapshots) (s : ContainerSnapshot) (intent : RouteIntent)
      (message : Option Text)
      → (message ≡ none) ⊎ ((m : Text) × ((message ≡ some m) × (is_empty m ≡ false)))
      → IsExplained (unrouted_application env exists http_url quote zones entry s intent message)
  unfolding unrouted_application
  unrouted-IsExplained entry s intent message h =
      refused refl (reason-is_empty zones intent message _ _ h)

  intent_of-good :
      (r : Result LabelError RouteIntent)
      → ((intent_of quote r).1 ≡ none)
        ⊎ ((m : Text) × (((intent_of quote r).1 ≡ some m) × (is_empty m ≡ false)))
  intent_of-good (ok intent) = inl refl
  intent_of-good (err e) = inr (label_message quote e, (refl, label_message-is_empty quote e))

  -- the application, where there is one, is explained
  abbrev Explained : Option Application → Type 0
  Explained none = Unit
  Explained (some a) = IsExplained a

  application_from_snapshot-Explained :
      (entry : DiscoveredSnapshots) (s : ContainerSnapshot)
      → Explained (application_from_snapshot env exists http_url quote zones entry s)
  unfolding application_from_snapshot
  application_from_snapshot-Explained entry s =
      let parsed = intent_of quote (parse_labels s.labels default_label_prefix) in
      elim (Bool-cases (not (is_some parsed.1) && not parsed.0.managed)) [
        | inl left_out ↦ rw left_out tt
        | inr shown ↦ rw shown (
            unrouted-IsExplained entry s parsed.0 parsed.1
              (intent_of-good (parse_labels s.labels default_label_prefix)))
      ]

  mark_conflict-IsExplained :
      (blocked : List Text) (a : Application)
      → IsExplained a
      → IsExplained (mark_conflict env exists http_url quote zones env.unicode_lower blocked a)
  unfolding mark_conflict
  mark_conflict-IsExplained blocked a h =
      elim (Bool-cases (not (a.host == []) && elem (to_lower env.unicode_lower a.host) blocked)) [
        | inl taken ↦ rw taken (refused refl refl)
        | inr free ↦ rw free h
      ]

  routed-IsExplained :
      (routes : List DiscoveredRoute) (m : Mapping DiscoveredRoute)
      → All IsExplained (routed env exists http_url quote zones routes m).0
  unfolding routed application_from_route
  routed-IsExplained [] m = tt
  routed-IsExplained (r ∷ routes) m = elim (Bool-cases (r.origin == origin_custom_app)) [
    | inl custom ↦ rw custom (served refl refl, routed-IsExplained routes m)
    | inr other ↦ rw other (routed-IsExplained routes _)
  ]

  guarded : (b : Bool) (o : Option Application) → Explained o → Explained (if b then none else o)
  guarded true o h = tt
  guarded false o h = h

  by_route :
      (r : Option DiscoveredRoute) (o : Option Application)
      → Explained o
      → Explained (elim r [ some route ↦ some (application_from_route route) | none ↦ o ])
  unfolding application_from_route
  by_route none o h = h
  by_route (some route) o h = served refl refl

  marked :
      (blocked : List Text) (o : Option Application)
      → Explained o
      → Explained (elim o [
        | none ↦ none
        | some app ↦
            some (mark_conflict env exists http_url quote zones env.unicode_lower blocked app)
      ])
  marked blocked none h = tt
  marked blocked (some a) h = mark_conflict-IsExplained blocked a h

  added :
      (o : Option Application) (rest : List Application)
      → Explained o
      → All IsExplained rest
      → All IsExplained (elim o [ none ↦ rest | some app ↦ app ∷ rest ])
  added none rest h k = k
  added (some a) rest h k = (h, k)

  snapshot_application-Explained :
      (blocked : List Text) (routes : Mapping DiscoveredRoute) (entry : DiscoveredSnapshots)
      (s : ContainerSnapshot)
      → Explained (snapshot_application env exists http_url quote zones blocked routes entry s)
  unfolding snapshot_application application_from_route
  snapshot_application-Explained blocked routes entry s = guarded (not s.running) _ (
      by_route
        (get
          (container_key env exists http_url quote zones entry.origin (source_node_name entry) s.id)
          routes)
        _
        (marked blocked (application_from_snapshot env exists http_url quote zones entry s)
          (application_from_snapshot-Explained entry s)))

  node_applications-IsExplained :
      (blocked : List Text) (routes : Mapping DiscoveredRoute) (entry : DiscoveredSnapshots)
      (ss : List ContainerSnapshot)
      → All IsExplained (node_applications env exists http_url quote zones blocked routes entry ss)
  unfolding node_applications
  node_applications-IsExplained blocked routes entry [] = tt
  node_applications-IsExplained blocked routes entry (s ∷ ss) =
      added (snapshot_application env exists http_url quote zones blocked routes entry s) _
        (snapshot_application-Explained blocked routes entry s)
        (node_applications-IsExplained blocked routes entry ss)

  snapshot_applications-IsExplained :
      (blocked : List Text) (routes : Mapping DiscoveredRoute) (entries : List DiscoveredSnapshots)
      → All IsExplained
          (snapshot_applications env exists http_url quote zones blocked routes entries)
  unfolding snapshot_applications
  snapshot_applications-IsExplained blocked routes [] = tt
  snapshot_applications-IsExplained blocked routes (entry ∷ entries) =
      All-append IsExplained _ _
        (node_applications-IsExplained blocked routes entry entry.snapshots)
        (snapshot_applications-IsExplained blocked routes entries)

  -- Every application of the list is served and has no reason, or is not served and has a reason.
  pub build_applications-IsExplained :
      (entries : List DiscoveredSnapshots) (routes custom : List DiscoveredRoute)
      → All IsExplained (build_applications env exists http_url quote zones entries routes custom)
  unfolding build_applications
  build_applications-IsExplained entries routes custom =
      All-sort IsExplained (by_key_then (λ (a : Application). a.status) (by_key (λ a. a.name))) _ (
        All-append IsExplained _ _ (routed-IsExplained routes [])
          (snapshot_applications-IsExplained _ _ entries))
