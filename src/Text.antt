-- ===== src/Text.antt =====
-- Go's `string` as the list of its code points (texts are valid UTF-8, whose byte order is the order
-- of the code points), and the functions of Go's `strings` package that the program calls.
pub mod Equality
pub mod Affix
pub mod Trim
pub mod Split
pub mod Decimal
use Prim.Native.Char.{code}
use domux.Prelude.{
  ℕ, ◌+◌, ◌≡◌, refl, Bool, true, false, ◌&&◌, ◌||◌, Option, none, some, List, [], ◌∷◌, ◌++◌, map,
  String, ltb, leb, nat_eq, if◌then◌else◌, is_some, get_or, is_empty,
}

abbrev pub Text : Type 0
Text = List ℕ

-- the code points of a literal
abbrev pub codes : String → Text
codes String.[] = []
codes (String.◌∷◌ c s) = code c ∷ codes s

infix 50 ◌==◌
unfoldable pub ◌==◌ : Text → Text → Bool
[] == [] = true
(a ∷ s) == (b ∷ t) = nat_eq a b && s == t
_ == _ = false

-- unicode.IsSpace
unfoldable pub is_space : ℕ → Bool
is_space c =
    (leb 9 c && leb c 13)
    || nat_eq c 32
    || nat_eq c 0x85
    || nat_eq c 0xA0
    || nat_eq c 0x1680
    || (leb 0x2000 c && leb c 0x200A)
    || nat_eq c 0x2028
    || nat_eq c 0x2029
    || nat_eq c 0x202F
    || nat_eq c 0x205F
    || nat_eq c 0x3000

unfoldable pub trim_left : Text → Text
trim_left [] = []
trim_left (c ∷ s) = let rest = trim_left s in if is_space c then rest else c ∷ s

unfoldable pub trim_right : Text → Text
trim_right [] = []
trim_right (c ∷ s) = let rest = trim_right s in if is_empty rest && is_space c then [] else c ∷ rest

-- strings.TrimSpace
unfoldable pub trim_space : Text → Text
unfolding is_space trim_left trim_right
trim_space s = trim_right (trim_left s)

-- what follows the prefix
unfoldable pub cut_prefix : Text → Text → Option Text
cut_prefix [] s = some s
cut_prefix (p ∷ ps) [] = none
cut_prefix (p ∷ ps) (c ∷ s) = if nat_eq p c then cut_prefix ps s else none

-- what stands before the suffix
unfoldable pub cut_suffix : Text → Text → Option Text
unfolding ◌==◌
cut_suffix p [] = if [] == p then some [] else none
cut_suffix p (c ∷ s) =
    if (c ∷ s) == p then some [] else elim (cut_suffix p s) [ none ↦ none | some r ↦ some (c ∷ r) ]

-- strings.HasPrefix(s, p), strings.TrimPrefix(s, p), and the same for suffixes
unfoldable pub has_prefix : Text → Text → Bool
unfolding cut_prefix
has_prefix p s = is_some (cut_prefix p s)

unfoldable pub trim_prefix : Text → Text → Text
unfolding cut_prefix
trim_prefix p s = get_or (cut_prefix p s) s

unfoldable pub has_suffix : Text → Text → Bool
unfolding cut_suffix
has_suffix p s = is_some (cut_suffix p s)

unfoldable pub trim_suffix : Text → Text → Text
unfolding cut_suffix
trim_suffix p s = get_or (cut_suffix p s) s

-- strings.Contains(s, sub)
unfoldable pub contains : Text → Text → Bool
unfolding has_prefix
contains sub [] = is_empty sub
contains sub (c ∷ s) = has_prefix sub (c ∷ s) || contains sub s

-- the part that a character extends
extend : ℕ → List Text → List Text
extend c [] = (c ∷ []) ∷ []
extend c (p ∷ ps) = (c ∷ p) ∷ ps

-- strings.Split(s, sep) at a separator of one code point
unfoldable pub split : ℕ → Text → List Text
unfolding extend
split sep [] = [] ∷ []
split sep (c ∷ s) = let rest = split sep s in if nat_eq c sep then [] ∷ rest else extend c rest

-- strings.Join(parts, sep)
unfoldable pub join : ℕ → List Text → Text
join sep [] = []
join sep (p ∷ []) = p
join sep (p ∷ q ∷ ps) = p ++ sep ∷ join sep (q ∷ ps)

-- the part of strings.Cut(s, sep) before the separator, which is all of `s` where there is none
unfoldable pub before : ℕ → Text → Text
before sep [] = []
before sep (c ∷ s) = if nat_eq c sep then [] else c ∷ before sep s

-- The order of `<` on strings, as "less or equal".
unfoldable pub le_text : Text → Text → Bool
le_text [] t = true
le_text (a ∷ s) [] = false
le_text (a ∷ s) (b ∷ t) = ltb a b || (nat_eq a b && le_text s t)

-- strings.ToLower, over a table for the code points above ASCII
unfoldable pub lower : (ℕ → ℕ) → ℕ → ℕ
lower unicode_lower c =
    if ltb c 128 then (if leb 65 c && leb c 90 then c + 32 else c) else unicode_lower c

unfoldable pub to_lower : (ℕ → ℕ) → Text → Text
unfolding lower
to_lower unicode_lower = map (lower unicode_lower)
