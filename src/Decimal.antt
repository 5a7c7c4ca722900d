-- ===== src/Decimal.antt =====
-- internal/contracts/decimal.go: exact base-10 numbers and their arithmetic.
-- A nil coefficient reads as 0 (`coefficientValue`), so `coefficient` is an integer; `scale` is an
-- `int32` and its sums and differences wrap.
pub mod Exact
pub mod Compare
pub mod Order
pub mod Places
pub mod Room
pub mod Quotient
pub mod Rounding
pub mod Division
pub mod Normal
pub mod Parse
pub mod Text
pub mod Digits
pub mod Shape
pub mod Reading
pub mod RoundTrip
pub mod Json
mod Tests
use cyp_agent.Base.{
  ℕ, zero, suc, ◌+◌, ◌-◌, ◌*◌, ◌/◌, ◌%◌, ◌^◌, ◌≡◌, refl, ◌⊎◌, inl, inr, Bool, true, false, ◌&&◌,
  ◌||◌, not, Option, none, some, ltb, leb, ◌==◌, if◌then◌else◌,
}
use cyp_agent.Int.{
  ℤ, pos, negsuc, pos_part, neg_part, abs, neg, ◌+ℤ◌, ◌-ℤ◌, ◌*ℤ◌, ltb_ℤ, leb_ℤ, wrap32,
}

pub record Decimal : Type 0 where
  pub coefficient : ℤ
  pub scale : ℤ
  pub negative_zero : Bool

-- The errors of decimal.go; `invalid_mode` is the "unknown rounding mode" of `QuoScale`.
pub data DecimalError : Type 0 where
  empty_decimal invalid_decimal decimal_too_large division_by_zero invalid_mode : DecimalError

pub data Result (A : Type 0) : Type 0 where
  ok : A → Result A
  err : DecimalError → Result A

pub Result-cases :
    {A : Type 0} (r : Result A) → ((a : A) × (r ≡ ok a)) ⊎ ((e : DecimalError) × (r ≡ err e))
Result-cases (ok a) = inl (a, refl)
Result-cases (err e) = inr (e, refl)

-- `RoundingMode` is a `uint8`; `other_mode` stands for the values with no name.
pub data RoundingMode : Type 0 where
  round_down round_half_up round_half_even other_mode : RoundingMode

abbrev pub max_decimal_digits : ℕ
max_decimal_digits = 10000

abbrev pub max_decimal_scale : ℕ
max_decimal_scale = 10000

abbrev pub zero_decimal : Decimal
zero_decimal = record { coefficient = pos 0; scale = pos 0; negative_zero = false }

unfoldable pub of_int64 : ℤ → Decimal
of_int64 value = record { coefficient = value; scale = pos 0; negative_zero = false }

-- `pow10`: 1 for a power of 0 or less.
abbrev pub pow10 : ℤ → ℕ
pow10 (pos n) = 10 ^ n
pow10 (negsuc _) = 1

-- `big.Int.Sign`, and `Sign` of a decimal.
abbrev pub sign_ℤ : ℤ → ℤ
sign_ℤ (pos zero) = pos 0
sign_ℤ (pos (suc _)) = pos 1
sign_ℤ (negsuc _) = negsuc 0

abbrev pub sign : Decimal → ℤ
sign d = sign_ℤ d.coefficient

abbrev pub is_zero : Decimal → Bool
is_zero d = abs d.coefficient == 0

abbrev pub is_negative : Decimal → Bool
is_negative d = ltb 0 (neg_part d.coefficient)

abbrev pub is_positive : Decimal → Bool
is_positive d = ltb 0 (pos_part d.coefficient)

-- `big.Int.Cmp`.
unfoldable pub cmp_ℤ : ℤ → ℤ → ℤ
cmp_ℤ a b = if ltb_ℤ a b then negsuc 0 else if ltb_ℤ b a then pos 1 else pos 0

-- The coefficient at a larger scale: `if delta := scale - d.scale; delta > 0 { a.Mul(a, …) }`.
unfoldable pub rescale : ℤ → Decimal → ℤ
rescale scale d =
    let delta = wrap32 (scale -ℤ d.scale) in
    if ltb_ℤ (pos 0) delta then d.coefficient *ℤ pos (pow10 delta) else d.coefficient

unfoldable pub common_scale : Decimal → Decimal → ℤ
common_scale left right = if ltb_ℤ left.scale right.scale then right.scale else left.scale

unfoldable pub align_decimals : Decimal → Decimal → ℤ × ℤ × ℤ
unfolding rescale common_scale
align_decimals left right =
    let scale = common_scale left right in (rescale scale left, rescale scale right, scale)

unfoldable pub add : Decimal → Decimal → Decimal
unfolding align_decimals
add d other =
    let (a, b, scale) = align_decimals d other in
    record { coefficient = a +ℤ b; scale = scale; negative_zero = false }

unfoldable pub neg_decimal : Decimal → Decimal
neg_decimal d =
    if is_zero d
    then record { coefficient = pos 0; scale = d.scale; negative_zero = not d.negative_zero }
    else record { coefficient = neg d.coefficient; scale = d.scale; negative_zero = false }

unfoldable pub sub : Decimal → Decimal → Decimal
unfolding add neg_decimal
sub d other = add d (neg_decimal other)

unfoldable pub mul : Decimal → Decimal → Decimal
mul d other = record {
  coefficient = d.coefficient *ℤ other.coefficient;
  scale = wrap32 (d.scale +ℤ other.scale);
  negative_zero = false;
}

unfoldable pub abs_decimal : Decimal → Decimal
abs_decimal d = record {
  coefficient = pos (abs d.coefficient);
  scale = d.scale;
  negative_zero = false;
}

unfoldable pub cmp : Decimal → Decimal → ℤ
unfolding align_decimals cmp_ℤ
cmp d other = let (a, b, _) = align_decimals d other in cmp_ℤ a b

abbrev pub gt_zero : ℤ → Bool
gt_zero c = ltb 0 (pos_part c)

abbrev pub lt_zero : ℤ → Bool
lt_zero c = ltb 0 (neg_part c)

abbrev pub equal : Decimal → Decimal → Bool
equal d other = abs (cmp d other) == 0

-- The integer with a sign and a magnitude.
abbrev pub signed : Bool → ℕ → ℤ
signed true (suc n) = negsuc n
signed _ n = pos n
