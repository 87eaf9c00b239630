-- ===== src/Core/Names/Compact.antt =====
-- The names that compactNames keeps.
use domux.Prelude.{◌≡◌, ◌≢◌, refl, not, ◌&&◌, List, [], ◌∷◌, map, arith, All}
use domux.Text.{Text, trim_space, ◌==◌}
use domux.Text.Equality.{eq_iff, ==_refl}
use domux.Text.Trim.{trim_space-trim_space}
use domux.Core.Names.{elem, Distinct, compact, compact_names}

abbrev pub IsClean : Text → Type 0
IsClean x = (trim_space x ≡ x) × (x ≢ [])

elem-compact :
    (x : Text) (seen values : List Text)
    → elem x (compact seen values)
      ≡ (elem x (map trim_space values) && not (x == []) && not (elem x seen))
unfolding compact
elem-compact x seen [] = refl
elem-compact x seen (v ∷ vs) =
    let t = trim_space v in
    ground (
      arith,
      elem-compact x seen vs,
      elem-compact x (t ∷ seen) vs,
      eq_iff t [],
      eq_iff x [],
      eq_iff t x,
    )

compact-Distinct : (seen values : List Text) → Distinct (compact seen values)
unfolding compact
compact-Distinct seen [] = tt
compact-Distinct seen (v ∷ vs) =
    let t = trim_space v in
    ground (
      arith,
      compact-Distinct seen vs,
      compact-Distinct (t ∷ seen) vs,
      elem-compact t (t ∷ seen) vs,
      ==_refl t,
    )

compact-IsClean : (seen values : List Text) → All IsClean (compact seen values)
unfolding compact
compact-IsClean seen [] = tt
compact-IsClean seen (v ∷ vs) =
    let t = trim_space v in
    ground (
      arith,
      compact-IsClean seen vs,
      compact-IsClean (t ∷ seen) vs,
      trim_space-trim_space v,
      eq_iff t [],
    )

-- The result has no name twice, each of its names is trimmed and non-empty, and a name is in it
-- exactly when it is non-empty and is the trimmed form of a value.
pub compact_names-Distinct :
    (values : List Text)
    → Distinct (compact_names values)
      × All IsClean (compact_names values)
      × ((x : Text)
          → elem x (compact_names values) ≡ (elem x (map trim_space values) && not (x == [])))
unfolding compact_names
compact_names-Distinct values = (
  compact-Distinct [] values,
  compact-IsClean [] values,
  λ x. ground (arith, elem-compact x [] values),
)
