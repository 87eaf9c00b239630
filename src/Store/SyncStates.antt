-- ===== src/Store/SyncStates.antt =====
-- The table of DDNS sync states and its keys.
use mathlib.Core.List.{Perm}
use domux.Prelude.{◌≡◌, ◌≢◌, refl, [], ◌∷◌, ◌++◌, arith, All}
use domux.Text.{Text}
use domux.Mapping.{values}
use domux.Sort.{
  Ascending, sort-perm, sort-Ascending, by_key_total, by_key_trans, by_key_then_total,
  by_key_then_trans,
}
use domux.Store.{MemoryStore, ddns_state_key, le_state, list_ddns_sync_states}

abbrev pub LacksColon : Text → Type 0
LacksColon = All (λ c. c ≢ b':')

colon_split :
    (x y s t : Text)
    → LacksColon x
    → LacksColon y
    → x ++ b':' ∷ s ≡ y ++ b':' ∷ t
    → (x ≡ y) × (s ≡ t)
colon_split [] [] s t hx hy e = (refl, cc)
colon_split [] (b ∷ y) s t hx hy e = ground arith
colon_split (a ∷ x) [] s t hx hy e = ground arith
colon_split (a ∷ x) (b ∷ y) s t hx hy e =
    let (same, rest) = colon_split x y s t hx.1 hy.1 (cc) in (cc, rest)

-- Keys of states whose domain, provider and record type have no colon are equal only if the states
-- are about the same domain, provider, host and record type.
pub ddns_state_key_injective :
    (z p h r z' p' h' r' : Text)
    → LacksColon z
    → LacksColon p
    → LacksColon r
    → LacksColon z'
    → LacksColon p'
    → LacksColon r'
    → ddns_state_key z p h r ≡ ddns_state_key z' p' h' r'
    → (z ≡ z') × (p ≡ p') × (h ≡ h') × (r ≡ r')
unfolding ddns_state_key
ddns_state_key_injective z p h r z' p' h' r' lz lp lr lz' lp' lr' e =
    let (ez, e₁) = colon_split z z' _ _ lz lz' e in
    let (ep, e₂) = colon_split p p' _ _ lp lp' e₁ in
    let (er, eh) = colon_split r r' _ _ lr lr' e₂ in (ez, ep, eh, er)

-- The states are listed by domain, provider, host and record type, each as often as it is stored.
pub list_ddns_sync_states-sorted :
    (s : MemoryStore)
    → Ascending le_state (list_ddns_sync_states s) × Perm (list_ddns_sync_states s) (values s.ddns)
unfolding list_ddns_sync_states
list_ddns_sync_states-sorted s = (
  sort-Ascending le_state
      (by_key_then_total _ _ (by_key_then_total _ _ (by_key_then_total _ _ (by_key_total _))))
      (by_key_then_trans _ _ (by_key_then_trans _ _ (by_key_then_trans _ _ (by_key_trans _))))
      (values s.ddns),
  sort-perm le_state (values s.ddns),
)
