-- ===== src/Decimal/Tests.antt =====
-- The decimal arithmetic on sample values.
use cyp_agent.Base.{
  some, dec_lt, length, Text, ◌↔◌, ◌≡◌, ◌≤◌, refl, false, arith, codes, trim_space, ◌*◌,
}
use cyp_agent.Int.{pos, negsuc, ◌+ℤ◌, ◌-ℤ◌, ◌*ℤ◌, neg, abs}
use cyp_agent.Decimal.{err, decimal_too_large, Decimal, ok, add, sub, cmp, cmp_ℤ, round_half_even}
use cyp_agent.Decimal.Exact.{IsScaled, units, units-add_decimal}
use cyp_agent.Decimal.Compare.{cmp-units}
use cyp_agent.Decimal.Order.{IsAtMost}
use cyp_agent.Decimal.Room.{add-IsAtMost_iff}
use cyp_agent.Decimal.Quotient.{quo_scale}
use cyp_agent.Decimal.Rounding.{half_even}
use cyp_agent.Decimal.Division.{quo_scale-near}
use cyp_agent.Decimal.Text.{to_text, digits_text, digits_loop}
use cyp_agent.Decimal.RoundTrip.{parse_decimal-to_text, parse_decimal-to_text_limit}
use cyp_agent.Decimal.Parse.{
  parse_decimal, split_exponent, split_point, at_scale, of_digits, parse_int32, IsParsed,
  parse_decimal-IsParsed,
}

abbrev amount : Decimal
amount = record { coefficient = pos 1250; scale = pos 3; negative_zero = false }

abbrev loss : Decimal
loss = record { coefficient = negsuc 6; scale = pos 1; negative_zero = false }

amount-IsScaled : IsScaled amount
amount-IsScaled = record { nonneg = refl; bounded = omega arith }

loss-IsScaled : IsScaled loss
loss-IsScaled = record { nonneg = refl; bounded = omega arith }

units-add_decimal_example : units 4 (add amount loss) ≡ units 4 amount +ℤ units 4 loss
units-add_decimal_example =
    units-add_decimal 4 amount loss amount-IsScaled loss-IsScaled (omega arith) (omega arith)

cmp-units_example : cmp amount loss ≡ cmp_ℤ (units 3 amount) (units 3 loss)
cmp-units_example =
    cmp-units 3 amount loss amount-IsScaled loss-IsScaled (omega arith) (omega arith)

add-IsAtMost_iff_example : IsAtMost loss (sub amount loss) ↔ IsAtMost (add loss loss) amount
add-IsAtMost_iff_example =
    add-IsAtMost_iff loss loss amount loss-IsScaled loss-IsScaled amount-IsScaled

quo_scale-near_example :
    (r : Decimal) × (quo_scale amount loss (pos 2) round_half_even ≡ ok r)
    × (r.scale ≡ pos 2)
    × (2 * abs (r.coefficient *ℤ (negsuc 6 *ℤ pos 1000) -ℤ pos 1250 *ℤ pos 1000)
        ≤ abs (negsuc 6 *ℤ pos 1000))
quo_scale-near_example =
    quo_scale-near amount loss 2 round_half_even amount-IsScaled loss-IsScaled (omega arith)
      (omega arith) (omega arith) half_even

parsed :
    parse_decimal (codes " -12.50e1 ")
    ≡ ok (record { coefficient = negsuc 1249; scale = pos 1; negative_zero = false })
unfolding parse_decimal split_exponent split_point at_scale of_digits trim_space parse_int32 ◌-ℤ◌
    neg
parsed = refl

parse_decimal-IsParsed_example :
    IsParsed (record { coefficient = negsuc 1249; scale = pos 1; negative_zero = false })
parse_decimal-IsParsed_example = parse_decimal-IsParsed (codes " -12.50e1 ") parsed

few_digits : length (digits_text 1250) ≤ 10000
unfolding digits_text digits_loop dec_lt
few_digits = omega arith

parse_decimal-to_text_example :
    (text : Text) × (to_text amount ≡ some text) × (parse_decimal text ≡ ok amount)
parse_decimal-to_text_example =
    parse_decimal-to_text amount
      (record { nonneg = refl; bounded = omega arith; signed_zero = λ h. ground arith })
      (omega arith) few_digits

-- What 1e-10000 parses to.
abbrev tiny : Decimal
tiny = record { coefficient = pos 1; scale = pos 10000; negative_zero = false }

tiny_parsed : parse_decimal (codes "1e-10000") ≡ ok tiny
unfolding parse_decimal split_exponent split_point at_scale of_digits trim_space parse_int32 ◌-ℤ◌
    neg
tiny_parsed = refl

one_digit : length (digits_text 1) ≤ 10000
unfolding digits_text digits_loop dec_lt
one_digit = omega arith

parse_decimal-to_text_limit_example :
    (text : Text) × (to_text tiny ≡ some text) × (parse_decimal text ≡ err decimal_too_large)
parse_decimal-to_text_limit_example = parse_decimal-to_text_limit tiny refl one_digit
