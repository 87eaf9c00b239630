-- ===== src/Program/Refresh/Bundles.antt =====
-- The bundles that pruning leaves in the store.
use domux.Prelude.{
  Bool, ◌≡◌, true, false, refl, ◌∙◌, not, ◌&&◌, ◌||◌, none, List, [], ◌∷◌, arith, inl, inr, map,
  if◌then◌else◌, is_some, is_empty, Bool-cases, Option-cases, All,
}
use domux.Prelude.Result.{ok, err, Result-cases}
use domux.Text.{Text}
use domux.Text.Equality.{eq_iff}
use domux.Mapping.{Mapping, get, values, get-delete}
use domux.Mapping.Keyed.{IsKeyed}
use domux.Sort.{by_key}
use domux.Core.Types.{ManagedZone, CertificatePlan, CertificateBundle}
use domux.Core.Zone.{certificate_plans}
use domux.Core.Names.{elem}
use domux.Store.{MemoryStore, list_domains, list_bundles, delete_bundle, get_bundle, sorted_by}
use domux.Program.Routes.Hosts.{elem-sort}
use domux.Program.Refresh.{
  plan_names, configured_names, configured_bundle_names, prune_all, prune_unmanaged_bundles,
}

abbrev name_of : CertificateBundle → Text
name_of b = b.name

elem-values :
    {V : Type 0} (id : V → Text) (k : Text) (m : Mapping V)
    → All (λ (e : Text × V). id e.1 ≡ e.0) m
    → elem k (map id (values m)) ≡ is_some (get k m)
unfolding values get elem
elem-values id k [] h = refl
elem-values id k ((j, v) ∷ m) h = ground (arith, h.0, elem-values id k m h.1, eq_iff j k)

prune_all-get :
    (k : Text) (managed : List Text) (bs : List CertificateBundle) (s : MemoryStore)
    → get k (prune_all managed bs s).bundles
      ≡ (if elem k (map name_of bs) && not (elem k managed) then none else get k s.bundles)
unfolding prune_all delete_bundle elem
prune_all-get k managed [] s = refl
prune_all-get k managed (b ∷ bs) s = elim (Bool-cases (elem b.name managed)) [
  | inl there ↦ ground (arith, there, prune_all-get k managed bs s, eq_iff b.name k)
  | inr gone ↦ ground (
    arith,
    gone,
    prune_all-get k managed bs (delete_bundle b.name s),
    get-delete b.name k s.bundles,
    eq_iff b.name k,
  )
]

list_bundles-elem :
    (k : Text) (s : MemoryStore)
    → IsKeyed name_of s.bundles
    → elem k (map name_of (list_bundles s)) ≡ is_some (get k s.bundles)
unfolding list_bundles sorted_by
list_bundles-elem k s keyed =
    elem-sort name_of (by_key name_of) k (values s.bundles)
    ∙ elem-values name_of k s.bundles keyed.own

-- The plans of the zone, whose certificate is enabled, are refused.
abbrev pub is_refused : ManagedZone → Bool
is_refused z =
    z.certificate.enabled && elim (certificate_plans z) [ ok plans ↦ false | err e ↦ true ]

-- The certificate of the zone is enabled and one of its plans has the name.
abbrev pub is_planned : Text → ManagedZone → Bool
is_planned k z = z.certificate.enabled && elim (certificate_plans z) [
  | ok plans ↦ elem k (map (λ (p : CertificatePlan). p.name) plans)
  | err e ↦ false
]

-- Some zone passes the test.
unfoldable pub some_zone : (ManagedZone → Bool) → List ManagedZone → Bool
some_zone f [] = false
some_zone f (z ∷ zones) = f z || some_zone f zones

elem-plan_names :
    (k : Text) (ps : List CertificatePlan) (names : List Text)
    → elem k (plan_names ps names)
      ≡ (elem k (map (λ (p : CertificatePlan). p.name) ps) || elem k names)
unfolding plan_names elem
elem-plan_names k [] names = refl
elem-plan_names k (p ∷ ps) names =
    ground
      (arith, elem-plan_names k ps (p.name ∷ names), eq_iff p.name k, Bool-cases (elem k names))

elem-configured_names :
    (k : Text) (zones : List ManagedZone) (names : List Text)
    → elem k (configured_names zones names).0 ≡ (some_zone (is_planned k) zones || elem k names)
unfolding configured_names some_zone
elem-configured_names k [] names = refl
elem-configured_names k (z ∷ zones) names = elim (Result-cases (certificate_plans z)) [
  | inl (ps, made) ↦ ground (
    arith,
    made,
    Bool-cases z.certificate.enabled,
    elem-plan_names k ps names,
    elem-configured_names k zones names,
    elem-configured_names k zones (plan_names ps names),
    Bool-cases (elem k names),
    Bool-cases (some_zone (is_planned k) zones),
    Bool-cases (elem k (map (λ (p : CertificatePlan). p.name) ps)),
  )
  | inr (e, failed) ↦
      ground (arith, failed, Bool-cases z.certificate.enabled, elem-configured_names k zones names)
]

is_empty-configured_names :
    (zones : List ManagedZone) (names : List Text)
    → is_empty (configured_names zones names).1 ≡ not (some_zone is_refused zones)
unfolding configured_names some_zone
is_empty-configured_names [] names = refl
is_empty-configured_names (z ∷ zones) names = elim (Result-cases (certificate_plans z)) [
  | inl (ps, made) ↦ ground (
    arith,
    made,
    Bool-cases z.certificate.enabled,
    is_empty-configured_names zones names,
    is_empty-configured_names zones (plan_names ps names),
  )
  | inr (e, failed) ↦
      ground
        (arith, failed, Bool-cases z.certificate.enabled, is_empty-configured_names zones names)
]

configured-elem :
    (k : Text) (zones : List ManagedZone)
    → elem k (configured_bundle_names zones).0 ≡ some_zone (is_planned k) zones
unfolding configured_bundle_names elem
configured-elem k zones =
    ground (arith, elem-configured_names k zones [], Bool-cases (some_zone (is_planned k) zones))

configured-is_empty :
    (zones : List ManagedZone)
    → is_empty (configured_bundle_names zones).1 ≡ not (some_zone is_refused zones)
unfolding configured_bundle_names
configured-is_empty zones = is_empty-configured_names zones []

-- In a store whose bundles stand under their names, pruning changes no bundle if CertificatePlans fails
-- for some zone with an enabled certificate; otherwise it keeps exactly the bundles whose name is that
-- of a plan of such a zone, unchanged.
pub get_bundle-prune_unmanaged_bundles :
    (k : Text) (s : MemoryStore)
    → IsKeyed name_of s.bundles
    → get_bundle k (prune_unmanaged_bundles s).0 ≡ (
        if some_zone is_refused (list_domains s) || some_zone (is_planned k) (list_domains s)
        then get_bundle k s
        else none)
unfolding prune_unmanaged_bundles get_bundle
get_bundle-prune_unmanaged_bundles k s keyed =
    let zones = list_domains s in
    let managed = configured_bundle_names zones in
    elim (Bool-cases (some_zone is_refused zones)) [
      | inl some_refused ↦ ground (arith, configured-is_empty zones, some_refused)
      | inr none_refused ↦ ground (
        arith,
        configured-is_empty zones,
        configured-elem k zones,
        none_refused,
        prune_all-get k managed.0 (list_bundles s) s,
        list_bundles-elem k s keyed,
        Option-cases (get k s.bundles),
        Bool-cases (some_zone (is_planned k) zones),
      )
    ]
