-- ===== src/Decimal/Text.antt =====
-- `Decimal.String` of internal/contracts/decimal.go.
use cyp_agent.Base.{
  ℕ, zero, suc, ◌+◌, ◌-◌, ◌/◌, ◌%◌, Bool, true, false, ◌&&◌, ◌||◌, Option, none, some, [], ◌∷◌,
  ◌++◌, leb, if◌then◌else◌, length, take, drop, replicate, Text, codes, dec_lt,
}
use cyp_agent.Int.{ℤ, pos, negsuc, abs}
use cyp_agent.Decimal.{Decimal, is_negative, is_zero}

-- The digits of a number before the given ones, most significant first, on fuel.
unfoldable pub digits_loop : ℕ → ℕ → Text → Text
digits_loop zero n later = later
digits_loop (suc fuel) n later = elim (dec_lt n 10) [
  | yes _ ↦ (b'0' + n) ∷ later
  | no _ ↦ digits_loop fuel (n / 10) ((b'0' + n % 10) ∷ later)
]

-- `big.Int.String` of a number that is not negative; a number has no more digits than its value.
unfoldable pub digits_text : ℕ → Text
unfolding digits_loop
digits_text n = digits_loop (suc n) n []

-- The digits with the point put in; `none` where a negative scale slices beyond the digits.
abbrev pub place_point : ℤ → Text → Option Text
place_point (pos zero) digits = some digits
place_point (pos (suc n)) digits =
    let point = length digits - suc n in
    if leb (length digits) (suc n)
    then some (codes "0." ++ (replicate (suc n - length digits) b'0' ++ digits))
    else some (take point digits ++ (b'.' ∷ drop point digits))
place_point (negsuc _) digits = none

abbrev pub put_sign : Bool → Option Text → Option Text
put_sign negative none = none
put_sign false (some value) = some value
put_sign true (some value) = some (b'-' ∷ value)

-- `String`; `none` is a panic.
unfoldable pub to_text : Decimal → Option Text
unfolding digits_text
to_text d =
    put_sign (is_negative d || (is_zero d && d.negative_zero))
      (place_point d.scale (digits_text (abs d.coefficient)))
