-- ===== src/Decimal/Parse.antt =====
-- `ParseDecimal` of internal/contracts/decimal.go, over the code points of the text.
use cyp_agent.Base.{
  ℕ, suc, ◌+◌, ◌-◌, ◌*◌, ◌^◌, Bool, true, false, ◌&&◌, ◌||◌, not, Option, none, some, [], ◌∷◌, ◌++◌,
  ltb, ◌==◌, if◌then◌else◌, length, replicate, Text, ◌≡◌, ◌≤◌, trim_space, arith, byte_len,
  is_digit,
}
use cyp_agent.Int.{ℤ, pos, negsuc, pos_part, neg_part, neg, ◌-ℤ◌, ltb_ℤ}
use cyp_agent.Decimal.{
  Decimal, Result, ok, err, empty_decimal, invalid_decimal, decimal_too_large, max_decimal_digits,
  max_decimal_scale, signed,
}

abbrev pub is_empty : Text → Bool
is_empty [] = true
is_empty (_ ∷ _) = false

abbrev pub is_exponent_mark : ℕ → Bool
is_exponent_mark c = c == b'e' || c == b'E'

-- The text before and after the first character that `p` accepts, if there is one.
unfoldable pub cut : (ℕ → Bool) → Text → Option (Text × Text)
cut p [] = none
cut p (c ∷ s) =
    let rest : Option (Text × Text) = elim (cut p s) [
      | none ↦ none
      | some (a, b) ↦ some (c ∷ a, b)
    ] in
    if p c then some ([], s) else rest

unfoldable pub ascii_digits : Text → Bool
ascii_digits [] = true
ascii_digits (c ∷ s) = is_digit c && ascii_digits s

-- The number that a run of digits names, most significant first.
unfoldable pub digits_value : ℕ → Text → ℕ
digits_value acc [] = acc
digits_value acc (c ∷ s) = digits_value (10 * acc + (c - b'0')) s

-- The sign that may stand first.
abbrev pub take_sign : Text → Bool × Text
take_sign [] = (false, [])
take_sign (c ∷ s) =
    if c == b'-' then (true, s) else if c == b'+' then (false, s) else (false, c ∷ s)

-- `strconv.ParseInt(text, 10, 32)`; `none` is its error, out of range included.
unfoldable pub parse_int32 : Text → Option ℤ
unfolding ascii_digits digits_value
parse_int32 text =
    let (negative, digits) = take_sign text in
    let n = digits_value 0 digits in
    if is_empty digits || not (ascii_digits digits)
    then none
    else if ltb (if negative then 2 ^ 31 else 2 ^ 31 - 1) n
    then none
    else some (signed negative n)

-- The mantissa and the exponent.
unfoldable pub split_exponent : Text → Result (Text × ℤ)
unfolding cut
split_exponent text = elim (cut is_exponent_mark text) [
  | none ↦ ok (text, pos 0)
  | some (mantissa, exponent_text) ↦ elim (cut is_exponent_mark exponent_text) [
    | some _ ↦ err invalid_decimal
    | none ↦
        if is_empty exponent_text then err invalid_decimal else elim (parse_int32 exponent_text) [
          | none ↦ err decimal_too_large
          | some exponent ↦
              if ltb_ℤ (pos max_decimal_scale) exponent
                || ltb_ℤ exponent (neg (pos max_decimal_scale))
              then err decimal_too_large
              else ok (mantissa, exponent)
        ]
  ]
]

abbrev pub is_point : ℕ → Bool
is_point c = c == b'.'

-- The digits before and after the point.
unfoldable pub split_point : Text → Result (Text × Text)
unfolding cut ascii_digits
split_point mantissa =
    let parts : Text × Text = elim (cut is_point mantissa) [ none ↦ (mantissa, []) | some p ↦ p ] in
    let second : Bool = elim (cut is_point parts.1) [ none ↦ false | some _ ↦ true ] in
    if is_empty mantissa || second
    then err invalid_decimal
    else if is_empty (parts.0 ++ parts.1) || not (ascii_digits (parts.0 ++ parts.1))
    then err invalid_decimal
    else ok parts

unfoldable pub trim_zeros : Text → Text
trim_zeros [] = []
trim_zeros (c ∷ s) = let rest = trim_zeros s in if c == b'0' then rest else c ∷ s

-- The decimal of checked digits at a scale of 0 or more.
unfoldable pub of_digits : Bool → Text → ℕ → Result Decimal
unfolding trim_zeros digits_value
of_digits negative digits scale =
    if ltb max_decimal_scale scale || ltb max_decimal_digits (length digits)
    then err decimal_too_large
    else if is_empty (trim_zeros digits)
    then ok (record { coefficient = pos 0; scale = pos scale; negative_zero = negative })
    else ok (record {
      coefficient = signed negative (digits_value 0 (trim_zeros digits));
      scale = pos scale;
      negative_zero = false;
    })

-- A negative scale becomes trailing zeros.
unfoldable pub at_scale : Bool → Text → ℤ → Result Decimal
at_scale negative digits (pos scale) = of_digits negative digits scale
at_scale negative digits (negsuc n) =
    if ltb max_decimal_digits (length digits + suc n)
    then err decimal_too_large
    else of_digits negative (digits ++ replicate (suc n) b'0') 0

abbrev pub with_point : Bool → ℤ → Result (Text × Text) → Result Decimal
with_point negative exponent (ok (whole, fraction)) =
    at_scale negative (whole ++ fraction) (pos (length fraction) -ℤ exponent)
with_point negative exponent (err e) = err e

abbrev pub with_exponent : Bool → Result (Text × ℤ) → Result Decimal
with_exponent negative (ok (mantissa, exponent)) =
    with_point negative exponent (split_point mantissa)
with_exponent negative (err e) = err e

unfoldable pub parse_decimal : Text → Result Decimal
parse_decimal original =
    let text = trim_space original in
    let (negative, unsigned) = take_sign text in
    if is_empty text
    then err empty_decimal
    else if ltb (max_decimal_digits + 32) (byte_len text)
    then err decimal_too_large
    else if is_empty unsigned
    then err invalid_decimal
    else with_exponent negative (split_exponent unsigned)

-- What a parsed decimal satisfies: at most 10000 places, and -0 only as the number zero.
pub record IsParsed (d : Decimal) : Type 0 where
  pub nonneg : neg_part d.scale ≡ 0
  pub bounded : pos_part d.scale ≤ max_decimal_scale
  pub signed_zero : d.negative_zero ≡ true → d.coefficient ≡ pos 0

of_digits-IsParsed :
    (negative : Bool) (digits : Text) (scale : ℕ) {d : Decimal}
    → of_digits negative digits scale ≡ ok d
    → IsParsed d
unfolding of_digits
of_digits-IsParsed negative digits scale h = ground arith

at_scale-IsParsed :
    (negative : Bool) (digits : Text) (scale : ℤ) {d : Decimal}
    → at_scale negative digits scale ≡ ok d
    → IsParsed d
unfolding at_scale
at_scale-IsParsed negative digits (pos scale) h = of_digits-IsParsed negative digits scale h
at_scale-IsParsed negative digits (negsuc n) {d} h =
    ground (arith, of_digits-IsParsed negative (digits ++ replicate (suc n) b'0') 0 {d = d})

with_point-IsParsed :
    (negative : Bool) (exponent : ℤ) (parts : Result (Text × Text)) {d : Decimal}
    → with_point negative exponent parts ≡ ok d
    → IsParsed d
with_point-IsParsed negative exponent (ok (whole, fraction)) h =
    at_scale-IsParsed negative (whole ++ fraction) (pos (length fraction) -ℤ exponent) h
with_point-IsParsed negative exponent (err e) h = cc

with_exponent-IsParsed :
    (negative : Bool) (split : Result (Text × ℤ)) {d : Decimal}
    → with_exponent negative split ≡ ok d
    → IsParsed d
with_exponent-IsParsed negative (ok (mantissa, exponent)) h =
    with_point-IsParsed negative exponent (split_point mantissa) h
with_exponent-IsParsed negative (err e) h = cc

-- Every decimal that a text parses to has between 0 and 10000 places, and is marked as a negative
-- zero only if its coefficient is 0.
pub parse_decimal-IsParsed : (text : Text) {d : Decimal} → parse_decimal text ≡ ok d → IsParsed d
unfolding parse_decimal
parse_decimal-IsParsed text {d} h = ground (
  arith,
  with_exponent-IsParsed (take_sign (trim_space text)).0
      (split_exponent (take_sign (trim_space text)).1) {d = d},
)
