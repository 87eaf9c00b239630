-- ===== src/Text/Decimal.antt =====
-- strconv.Atoi, and `%d` for an int.
use Prim.Native.Nat.{◌/◌, ◌%◌, ◌^◌}
use domux.Prelude.{
  ℕ, zero, suc, ◌+◌, ◌-◌, ◌*◌, Option, none, some, [], ◌∷◌, ◌&&◌, ltb, leb, nat_eq, if◌then◌else◌,
  ◌≡◌, refl,
}
use domux.Prelude.Int.{ℤ, pos, negsuc}
use domux.Text.{Text, codes}

-- the number that the digits spell behind `n`; none for another character
unfoldable pub digits : ℕ → Text → Option ℕ
digits n [] = some n
digits n (c ∷ s) = if leb b'0' c && leb c b'9' then digits (n * 10 + (c - b'0')) s else none

-- digits after a sign, in the range of int64
positive : Text → Option ℤ
unfolding digits
positive [] = none
positive (c ∷ s) = elim (digits 0 (c ∷ s)) [
  | none ↦ none
  | some n ↦ if ltb n (2 ^ 63) then some (pos n) else none
]

negative : Text → Option ℤ
unfolding digits
negative [] = none
negative (c ∷ s) = elim (digits 0 (c ∷ s)) [
  | none ↦ none
  | some n ↦
      if nat_eq n 0 then some (pos 0) else if leb n (2 ^ 63) then some (negsuc (n - 1)) else none
]

unfoldable pub atoi : Text → Option ℤ
unfolding positive negative
atoi [] = none
atoi (c ∷ s) =
    if nat_eq c b'+' then positive s else if nat_eq c b'-' then negative s else positive (c ∷ s)

-- the digits of a number, before a text; a number has fewer digits than the fuel `suc n`
print_digits : ℕ → ℕ → Text → Text
print_digits zero n out = out
print_digits (suc fuel) n out =
    let digit = b'0' + n % 10 in
    let rest = print_digits fuel (n / 10) (digit ∷ out) in if ltb n 10 then digit ∷ out else rest

unfoldable pub itoa : ℤ → Text
unfolding print_digits
itoa (pos n) = print_digits (suc n) n []
itoa (negsuc n) = b'-' ∷ print_digits (suc (suc n)) (suc n) []

itoa_8080 : itoa (pos 8080) ≡ codes "8080"
unfolding itoa
itoa_8080 = refl

atoi_8080 : atoi (codes "-8080") ≡ some (negsuc 8079)
unfolding atoi
atoi_8080 = refl
