-- ===== src/Decimal/RoundTrip.antt =====
-- Printing and parsing back.
use cyp_agent.Base.{
  ℕ, zero, suc, ◌+◌, ◌-◌, ◌≤◌, ◌<◌, ◌≡◌, refl, sym, ap, ◌∙◌, inl, inr, Bool, true, false, ◌&&◌,
  ◌||◌, some, [], ◌∷◌, ◌++◌, ◌==◌, leb, ltb, length, Text, arith, Bool-cases, length-append,
  replicate, take, drop, codes, length-drop,
}
use cyp_agent.Int.{pos, abs, pos_part}
use cyp_agent.Decimal.{
  Decimal, ok, err, decimal_too_large, is_negative, is_zero, signed, max_decimal_digits,
  max_decimal_scale,
}
use cyp_agent.Decimal.Parse.{
  ascii_digits, is_empty, parse_decimal, of_digits, at_scale, with_point, IsParsed, digits_value,
}
use cyp_agent.Decimal.Text.{to_text, digits_text, place_point, put_sign}
use cyp_agent.Decimal.Exact.{scale-eq-pos}
use cyp_agent.Decimal.Digits.{
  ascii_digits-append, digits_value-leading_zeros, ascii_digits-zeros, digits_text_lem,
}
use cyp_agent.Decimal.Shape.{whole_text}
use cyp_agent.Decimal.Reading.{
  printed, parse_whole, parse_point, parse_plain, split_both, point_plain, first_of_whole,
  minus_zero,
}

put_sign_lem :
    (negative : Bool) (s : Text) → put_sign negative (some s) ≡ some (whole_text negative s)
put_sign_lem true s = refl
put_sign_lem false s = refl

length-replicate : (n : ℕ) → length {A = ℕ} (replicate n b'0') ≡ n
length-replicate zero = refl
length-replicate (suc n) = ap suc (length-replicate n)

take-drop : (n : ℕ) (s : Text) → take n s ++ drop n s ≡ s
take-drop zero s = refl
take-drop (suc n) [] = refl
take-drop (suc n) (c ∷ s) = ap (λ t. c ∷ t) (take-drop n s)

ascii_digits-take :
    (n : ℕ) (s : Text)
    → ascii_digits s ≡ true
    → (ascii_digits (take n s) ≡ true) × (ascii_digits (drop n s) ≡ true)
unfolding ascii_digits
ascii_digits-take zero s h = (refl, h)
ascii_digits-take (suc n) [] h = (refl, refl)
ascii_digits-take (suc n) (c ∷ s) h = ground (arith, ascii_digits-take n s)

is_empty-take : (n : ℕ) (s : Text) → 0 < n → is_empty s ≡ false → is_empty (take n s) ≡ false
is_empty-take zero s p h = absurd (omega (arith, p))
is_empty-take (suc n) [] p h = h
is_empty-take (suc n) (c ∷ s) p h = refl

-- The text of a number below one.
small_text :
    (negative : Bool) (digits : Text) (k : ℕ)
    → ascii_digits digits ≡ true
    → k + length digits < 10000
    → parse_decimal (whole_text negative (codes "0." ++ (replicate k b'0' ++ digits)))
      ≡ ok (printed negative (digits_value 0 digits) (k + length digits))
unfolding ascii_digits
small_text negative digits k a l =
    let fraction = replicate k b'0' ++ digits in
    let len : length fraction ≡ k + length digits =
      omega (arith, length-append (replicate k b'0') digits, length-replicate k) in
    parse_point negative (b'0' ∷ []) fraction refl
      (ascii_digits-append (replicate k b'0') digits (ascii_digits-zeros k) a) refl
      (omega (arith, len, l))
    ∙ ap (λ v. ok (printed negative v (length fraction)))
        (digits_value-leading_zeros (suc k) digits)
    ∙ ap (λ n. ok (printed negative (digits_value 0 digits) n)) len

-- The text of a number with a whole part.
large_text :
    (negative : Bool) (digits : Text) (n : ℕ)
    → ascii_digits digits ≡ true
    → is_empty digits ≡ false
    → n < length digits
    → length digits ≤ 10000
    → let point = length digits - n in
      parse_decimal (whole_text negative (take point digits ++ (b'.' ∷ drop point digits)))
      ≡ ok (printed negative (digits_value 0 digits) n)
large_text negative digits n a e h l =
    let point = length digits - n in
    let whole = take point digits in
    let fraction = drop point digits in
    let both = take-drop point digits in
    let parts = ascii_digits-take point digits a in
    let len : length fraction ≡ n = omega (arith, length-drop point digits, h) in
    let sum : length whole + length fraction ≤ 10000 =
      omega (arith, sym (length-append whole fraction) ∙ ap length both, l) in
    parse_point negative whole fraction parts.0 parts.1
      (is_empty-take point digits (omega (arith, h)) e) sum
    ∙ ap (λ s. ok (printed negative (digits_value 0 s) (length fraction))) both
    ∙ ap (λ k. ok (printed negative (digits_value 0 digits) k)) len

place_text :
    (negative : Bool) (digits : Text) (n : ℕ)
    → ascii_digits digits ≡ true
    → is_empty digits ≡ false
    → length digits ≤ 10000
    → n < 10000
    → (text : Text) × (put_sign negative (place_point (pos n) digits) ≡ some text)
      × (parse_decimal text ≡ ok (printed negative (digits_value 0 digits) n))
place_text negative digits zero a e l s =
    (whole_text negative digits, put_sign_lem negative digits, parse_whole negative digits a e l)
place_text negative digits (suc m) a e l s = elim (Bool-cases (leb (length digits) (suc m))) [
  | inl small ↦
      let k = suc m - length digits in
      let len : k + length digits ≡ suc m = ground arith in
      let text = codes "0." ++ (replicate k b'0' ++ digits) in
      (
        whole_text negative text,
        rw small (put_sign_lem negative text),
        small_text negative digits k a (omega (arith, len, s))
            ∙ ap (λ n. ok (printed negative (digits_value 0 digits) n)) len,
      )
  | inr large ↦
      let point = length digits - suc m in
      let text = take point digits ++ (b'.' ∷ drop point digits) in
      (
        whole_text negative text,
        rw large (put_sign_lem negative text),
        large_text negative digits (suc m) a e (ground arith) l,
      )
]

-- The sign that is printed gives the coefficient and the mark of a negative zero back.
printed_lem :
    (d : Decimal) (n : ℕ)
    → d.scale ≡ pos n
    → (d.negative_zero ≡ true → d.coefficient ≡ pos 0)
    → printed (is_negative d || (is_zero d && d.negative_zero)) (abs d.coefficient) n ≡ d
printed_lem d n s z =
    let negative = is_negative d || (is_zero d && d.negative_zero) in
    let c : signed negative (abs d.coefficient) ≡ d.coefficient = ground arith in
    let m : (negative && abs d.coefficient == 0) ≡ d.negative_zero = ground arith in
    rw (c, m, ← s) refl

-- Every decimal with fewer than 10000 places and at most 10000 digits, marked as a negative zero
-- only if it is zero, is printed to a text, and that text parses back to the same coefficient,
-- scale and mark.
pub parse_decimal-to_text :
    (d : Decimal)
    → IsParsed d
    → pos_part d.scale < 10000
    → length (digits_text (abs d.coefficient)) ≤ 10000
    → (text : Text) × (to_text d ≡ some text) × (parse_decimal text ≡ ok d)
unfolding to_text
parse_decimal-to_text d v small l =
    let n = pos_part d.scale in
    let negative = is_negative d || (is_zero d && d.negative_zero) in
    let digits = digits_text (abs d.coefficient) in
    let s = scale-eq-pos d.scale v.nonneg in
    let (a, value, e) = digits_text_lem (abs d.coefficient) in
    let (text, shown, read) = place_text negative digits n a e l small in
    (
      text,
      ap (λ z. put_sign negative (place_point z digits)) s ∙ shown,
      read ∙ ap (λ m. ok (printed negative m n)) value ∙ ap ok (printed_lem d n s v.signed_zero),
    )

-- One digit too many at the largest scale.
limit_fits : (s : Text) → length s ≤ 10000 → leb (length s) 10000 ≡ true
limit_fits s h = ground arith

parse_small_limit :
    (negative : Bool) (fraction : Text)
    → ascii_digits fraction ≡ true
    → length fraction ≡ 10000
    → parse_decimal (whole_text negative (codes "0." ++ fraction)) ≡ err decimal_too_large
unfolding at_scale of_digits ascii_digits
parse_small_limit negative fraction a l =
    let digits = b'0' ∷ fraction in
    let long : (ltb max_decimal_scale (length fraction) || ltb max_decimal_digits (length digits))
        ≡ true =
      ground arith in
    parse_plain negative (b'0' ∷ b'.' ∷ fraction) (point_plain (b'0' ∷ []) fraction refl a) refl
      (first_of_whole (b'0' ∷ []) (b'.' ∷ fraction) refl refl) (omega (arith, l))
    ∙ ap (with_point negative (pos 0)) (split_both (b'0' ∷ []) fraction refl a refl)
    ∙ ap (at_scale negative digits) (minus_zero (length fraction))
    ∙ rw (long, of_digits) refl

-- A decimal of scale 10000, the largest that parses, with at most 10000 digits is printed to a
-- text that is refused as too large: the text has the digit 0 before the point, one more than the
-- limit.
pub parse_decimal-to_text_limit :
    (d : Decimal)
    → d.scale ≡ pos 10000
    → length (digits_text (abs d.coefficient)) ≤ 10000
    → (text : Text) × (to_text d ≡ some text) × (parse_decimal text ≡ err decimal_too_large)
unfolding to_text
parse_decimal-to_text_limit d s l =
    let negative = is_negative d || (is_zero d && d.negative_zero) in
    let digits = digits_text (abs d.coefficient) in
    let k = 10000 - length digits in
    let fraction = replicate k b'0' ++ digits in
    let text = whole_text negative (codes "0." ++ fraction) in
    let a = (digits_text_lem (abs d.coefficient)).0 in
    let len : length fraction ≡ 10000 =
      omega (arith, length-append (replicate k b'0') digits, length-replicate k, l) in
    let shown : put_sign negative (place_point (pos 10000) digits) ≡ some text =
      rw (limit_fits digits l) (put_sign_lem negative (codes "0." ++ fraction)) in
    (
      text,
      ap (λ z. put_sign negative (place_point z digits)) s ∙ shown,
      parse_small_limit negative fraction
          (ascii_digits-append (replicate k b'0') digits (ascii_digits-zeros k) a) len,
    )
