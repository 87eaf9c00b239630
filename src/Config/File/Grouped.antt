-- ===== src/Config/File/Grouped.antt =====
-- Configurations as reading leaves them, and their apps by domain.
use mathlib.Core.List.{Perm, perm_middle}
use mathlib.Core.List.Perm
use domux.Prelude.{
  ◌≡◌, ◌≢◌, refl, sym, ap₂, subst, true, false, List, [], ◌∷◌, ◌++◌, arith, inl, inr, All, map,
  if◌then◌else◌, Bool-cases, is_empty,
}
use domux.Text.{Text, ◌==◌, trim_space}
use domux.Text.Equality.{eq_iff}
use domux.Core.Types.{ManagedZone, CustomApp}
use domux.Core.Names.{elem, Distinct}
use domux.Core.Runtime.{Env, normalized}
use domux.Config.{Config}
use domux.Config.File.{app_key, apps_at}

-- Trimmed and not empty.
pub record IsSettledZone (z : ManagedZone) : Type 0 where
  pub name : trim_space z.name ≡ z.name
  pub named : z.name ≢ []
  pub domain : trim_space z.domain ≡ z.domain
  pub placed : z.domain ≢ []

-- An app bs the program keeps it: trimmed, named, and with its domain bs its zone.
pub record IsSettledApp (a : CustomApp) : Type 0 where
  pub name : trim_space a.name ≡ a.name
  pub named : a.name ≢ []
  pub icon : trim_space a.icon ≡ a.icon
  pub subdomain : trim_space a.subdomain ≡ a.subdomain
  pub exit_node : trim_space a.exit_node ≡ a.exit_node
  pub target_url : trim_space a.target_url ≡ a.target_url
  pub domain : trim_space a.domain ≡ a.domain
  pub placed : a.domain ≢ []
  pub zone : a.zone ≡ a.domain

abbrev pub domains : List ManagedZone → List Text
domains = map (λ (z : ManagedZone). z.domain)

-- A configuration bs reading leaves it.
pub record IsSettled (env : Env) (c : Config) : Type 0 where
  pub some_zone : is_empty c.zones ≡ false
  pub zones : All IsSettledZone c.zones
  pub distinct : Distinct (domains c.zones)
  pub apps : All IsSettledApp c.apps
  pub placed : All (λ (a : CustomApp). elem a.domain (domains c.zones) ≡ true) c.apps
  pub data_dir : trim_space c.server.data_dir ≢ []
  pub runtime : normalized env c.server.runtime ≡ c.server.runtime

pub app_key_lem : (a : CustomApp) → IsSettledApp a → app_key a ≡ a.domain
unfolding app_key
app_key_lem a s = ground (arith, s.domain, eq_iff a.domain [])

-- the apps of the other keys
without : Text → List CustomApp → List CustomApp
without key [] = []
without key (a ∷ bs) = let rest = without key bs in if app_key a == key then rest else a ∷ rest

unfoldable pub collect : List Text → List CustomApp → List CustomApp
collect [] apps = []
collect (d ∷ ds) apps = apps_at d apps ++ collect ds apps

perm_split : (d : Text) (apps : List CustomApp) → Perm (apps_at d apps ++ without d apps) apps
unfolding apps_at without
perm_split d [] = Perm.rfl
perm_split d (a ∷ bs) = elim (Bool-cases (app_key a == d)) [
  | inl here ↦ rw here (Perm.cons a (perm_split d bs))
  | inr other ↦
      rw other
        (Perm.trans (perm_middle (apps_at d bs) (without d bs)) (Perm.cons a (perm_split d bs)))
]

apps_at-without :
    (d k : Text) (apps : List CustomApp)
    → (d == k) ≡ false
    → apps_at k (without d apps) ≡ apps_at k apps
unfolding apps_at without
apps_at-without d k [] h = refl
apps_at-without d k (a ∷ bs) h =
    ground
      (arith, h, eq_iff d k, eq_iff (app_key a) d, eq_iff (app_key a) k, apps_at-without d k bs)

collect-without :
    (d : Text) (ds : List Text) (apps : List CustomApp)
    → elem d ds ≡ false
    → collect ds (without d apps) ≡ collect ds apps
unfolding collect elem
collect-without d [] apps h = refl
collect-without d (k ∷ ds) apps h =
    ground (arith, h, eq_iff d k, eq_iff k d, apps_at-without d k apps, collect-without d ds apps)

abbrev Covered : List Text → List CustomApp → Type 0
Covered ds = All (λ (a : CustomApp). elem (app_key a) ds ≡ true)

Covered-without :
    (d : Text) (ds : List Text) (apps : List CustomApp)
    → Covered (d ∷ ds) apps
    → Covered ds (without d apps)
unfolding without elem
Covered-without d ds [] h = tt
Covered-without d ds (a ∷ bs) h = elim (Bool-cases (app_key a == d)) [
  | inl here ↦ rw here (Covered-without d ds bs h.1)
  | inr other ↦ rw other (
    ground (arith, h.0, other, eq_iff d (app_key a), eq_iff (app_key a) d),
    Covered-without d ds bs h.1,
  )
]

-- Under distinct keys that cover the apps, each app is collected once.
pub perm_collect :
    (ds : List Text) (apps : List CustomApp)
    → Distinct ds
    → Covered ds apps
    → Perm (collect ds apps) apps
unfolding collect elem
perm_collect [] [] d h = Perm.rfl
perm_collect [] (a ∷ bs) d h = absurd (cc (h.0))
perm_collect (k ∷ ds) apps d h =
    let rest = perm_collect ds (without k apps) d.1 (Covered-without k ds apps h) in
    let same = collect-without k ds apps d.0 in
    let rest' : Perm (collect ds apps) (without k apps) =
      subst (λ x. Perm x (without k apps)) same rest in
    Perm.trans (Perm.append Perm.rfl rest') (perm_split k apps)

pub Covered_lem :
    (ds : List Text) (apps : List CustomApp)
    → All IsSettledApp apps
    → All (λ (a : CustomApp). elem a.domain ds ≡ true) apps
    → Covered ds apps
Covered_lem ds [] s h = tt
Covered_lem ds (a ∷ bs) s h =
    (subst (λ k. elem k ds ≡ true) (sym (app_key_lem a s.0)) h.0, Covered_lem ds bs s.1 h.1)

-- The apps whose domain is the given one, in their order.
unfoldable pub apps_in : Text → List CustomApp → List CustomApp
apps_in d [] = []
apps_in d (a ∷ bs) = let rest = apps_in d bs in if a.domain == d then a ∷ rest else rest

-- The apps grouped by their domains, in the order of the domains.
unfoldable pub grouped : List Text → List CustomApp → List CustomApp
unfolding apps_in
grouped [] apps = []
grouped (d ∷ ds) apps = apps_in d apps ++ grouped ds apps

apps_at-apps_in :
    (d : Text) (apps : List CustomApp) → All IsSettledApp apps → apps_at d apps ≡ apps_in d apps
unfolding apps_at apps_in
apps_at-apps_in d [] s = refl
apps_at-apps_in d (a ∷ bs) s = ground (arith, app_key_lem a s.0, apps_at-apps_in d bs s.1)

pub collect-grouped :
    (ds : List Text) (apps : List CustomApp)
    → All IsSettledApp apps
    → collect ds apps ≡ grouped ds apps
unfolding collect grouped
collect-grouped [] apps s = refl
collect-grouped (d ∷ ds) apps s = ap₂ ◌++◌ (apps_at-apps_in d apps s) (collect-grouped ds apps s)
