-- ===== src/Decimal/Quotient.antt =====
-- Division and normal form in internal/contracts/decimal.go: `QuoScale`, `Quo`, `Normalize`.
use cyp_agent.Base.{
  ℕ, zero, suc, ◌*◌, ◌/◌, ◌%◌, Bool, true, false, ◌&&◌, ◌||◌, not, ltb, ◌==◌, if◌then◌else◌,
}
use cyp_agent.Int.{ℤ, pos, abs, neg, ◌+ℤ◌, ◌-ℤ◌, ◌*ℤ◌, ltb_ℤ, leb_ℤ, wrap32, pos_part}
use cyp_agent.Decimal.{
  Decimal, Result, ok, err, division_by_zero, decimal_too_large, invalid_mode, RoundingMode,
  round_down, round_half_up, round_half_even, other_mode, max_decimal_scale, zero_decimal, pow10,
  is_zero, lt_zero, signed,
}

-- `numerator` and `denominator` after the powers of ten.
unfoldable pub scaled_parts : Decimal → Decimal → ℤ → ℤ × ℤ
scaled_parts d other scale =
    let exponent = other.scale -ℤ d.scale +ℤ scale in
    if leb_ℤ (pos 0) exponent
    then (d.coefficient *ℤ pos (pow10 (wrap32 exponent)), other.coefficient)
    else (d.coefficient, other.coefficient *ℤ pos (pow10 (wrap32 (neg exponent))))

-- A negative denominator changes both signs.
abbrev pub flip_signs : ℤ × ℤ → ℤ × ℤ
flip_signs (n, den) = if lt_zero den then (neg n, neg den) else (n, den)

-- The magnitudes of `big.Int.QuoRem`, which truncates.
abbrev pub quo_ℤ : ℤ → ℤ → ℤ
quo_ℤ n d = signed (lt_zero n) (abs n / abs d)

abbrev pub rem_abs : ℤ → ℤ → ℕ
rem_abs n d = abs n % abs d

abbrev pub is_round_down : RoundingMode → Bool
is_round_down round_down = true
is_round_down _ = false

-- `roundAway`, on the magnitudes of the quotient and the remainder.
unfoldable pub round_away : RoundingMode → ℕ → ℕ → ℕ → Bool
round_away round_half_up q r den = ltb den (2 * r) || (2 * r == den)
round_away round_half_even q r den = if 2 * r == den then q % 2 == 1 else ltb den (2 * r)
round_away _ q r den = false

unfoldable pub round_quotient : RoundingMode → ℤ → ℤ → ℤ
unfolding round_away
round_quotient mode n den =
    let quotient = quo_ℤ n den in
    let remainder = rem_abs n den in
    if not (remainder == 0)
      && not (is_round_down mode)
      && round_away mode (abs quotient) remainder (abs den)
    then if lt_zero n then quotient -ℤ pos 1 else quotient +ℤ pos 1
    else quotient

abbrev pub known_mode : RoundingMode → Bool
known_mode other_mode = false
known_mode _ = true

-- The end of `QuoScale`, after its checks.
unfoldable pub quo_rounded : Decimal → Decimal → ℤ → RoundingMode → Decimal
quo_rounded d other scale mode =
    let (numerator, denominator) = flip_signs (scaled_parts d other scale) in
    let quotient = round_quotient mode numerator denominator in
    record {
      coefficient = quotient;
      scale = scale;
      negative_zero = abs quotient == 0 && lt_zero numerator;
    }

unfoldable pub quo_scale : Decimal → Decimal → ℤ → RoundingMode → Result Decimal
quo_scale d other scale mode =
    if is_zero other
    then err division_by_zero
    else if ltb_ℤ scale (pos 0) || ltb_ℤ (pos max_decimal_scale) scale
    then err decimal_too_large
    else if not (known_mode mode)
    then err invalid_mode
    else ok (quo_rounded d other scale mode)

-- The loop of `Normalize`, on the scale that is left: drops one trailing zero a round.
unfoldable pub normalize_loop : ℕ → ℤ → ℤ × ℕ
normalize_loop zero c = (c, 0)
normalize_loop (suc s) c =
    let rest = normalize_loop s (quo_ℤ c (pos 10)) in
    if rem_abs c (pos 10) == 0 then rest else (c, suc s)

unfoldable pub normalize : Decimal → Decimal
normalize d =
    if is_zero d
    then zero_decimal
    else let (c, left) = normalize_loop (pos_part d.scale) d.coefficient in
      record {
        coefficient = c;
        scale = if ltb_ℤ (pos 0) d.scale then pos left else d.scale;
        negative_zero = false;
      }

abbrev quo_result : Result Decimal → Result Decimal
quo_result (ok result) = ok (normalize result)
quo_result (err e) = err e

unfoldable pub quo : Decimal → Decimal → Result Decimal
unfolding quo_scale
quo d other = quo_result (quo_scale d other (pos 28) round_half_even)
