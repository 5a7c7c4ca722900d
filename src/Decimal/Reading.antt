-- ===== src/Decimal/Reading.antt =====
-- What `ParseDecimal` makes of a sign, digits and a point.
use cyp_agent.Base.{
  ℕ, suc, ◌+◌, ◌≤◌, ◌≡◌, refl, ap, ◌∙◌, inl, inr, Bool, true, false, ◌&&◌, ◌||◌, [], ◌∷◌, ◌++◌,
  ◌==◌, ltb, length, Text, is_digit, byte_len, arith, Bool-cases, length-append, append-nil,
}
use cyp_agent.Int.{int_laws, pos, ◌-ℤ◌}
use cyp_agent.Decimal.{Decimal, ok, signed, max_decimal_digits, max_decimal_scale}
use cyp_agent.Decimal.Parse.{
  ascii_digits, is_empty, cut, split_exponent, split_point, parse_decimal, of_digits, at_scale,
  with_point, trim_zeros, digits_value,
}
use cyp_agent.Decimal.Digits.{ascii_digits-append, trim_zeros-digits_value, trim_zeros-is_empty}
use cyp_agent.Decimal.Shape.{
  all_plain, all_plain-append, trim_space_lem, byte_len_lem, cut_exponent, cut_point_none,
  cut_point_some, digits-all_plain, whole_text, take_sign-whole_text,
}

length-whole_text :
    (negative : Bool) (body : Text) → length (whole_text negative body) ≤ suc (length body)
length-whole_text true body = omega arith
length-whole_text false body = omega arith

all_plain-whole_text :
    (negative : Bool) (body : Text)
    → all_plain body ≡ true
    → all_plain (whole_text negative body) ≡ true
unfolding all_plain
all_plain-whole_text true body h = ground arith
all_plain-whole_text false body h = h

is_empty-whole_text :
    (negative : Bool) (body : Text)
    → is_empty body ≡ false
    → is_empty (whole_text negative body) ≡ false
is_empty-whole_text true body h = refl
is_empty-whole_text false body h = h

split_exponent_lem : (body : Text) → all_plain body ≡ true → split_exponent body ≡ ok (body, pos 0)
unfolding split_exponent
split_exponent_lem body p = rw (cut_exponent body p, split_exponent) refl

pub is_empty-append : (s t : Text) → is_empty s ≡ false → is_empty (s ++ t) ≡ false
is_empty-append [] t h = absurd (ground arith)
is_empty-append (c ∷ s) t h = refl

-- A sign and a plain body are read up to the point.
pub parse_plain :
    (negative : Bool) (body : Text)
    → all_plain body ≡ true
    → is_empty body ≡ false
    → ((c : ℕ) (t : Text) → body ≡ c ∷ t → is_digit c ≡ true)
    → length body ≤ 10031
    → parse_decimal (whole_text negative body) ≡ with_point negative (pos 0) (split_point body)
unfolding parse_decimal
parse_plain negative body p e d l =
    let text = whole_text negative body in
    let plain = all_plain-whole_text negative body p in
    let small : ltb (max_decimal_digits + 32) (byte_len text) ≡ false =
      ground (arith, byte_len_lem text plain, length-whole_text negative body) in
    rw
      (
        trim_space_lem text plain,
        is_empty-whole_text negative body e,
        small,
        take_sign-whole_text negative body e d,
        e,
        split_exponent_lem body p,
      )
      refl

split_whole :
    (whole : Text)
    → ascii_digits whole ≡ true
    → is_empty whole ≡ false
    → split_point whole ≡ ok (whole, [])
unfolding split_point cut
split_whole whole a e = rw (cut_point_none whole a, append-nil whole, e, a, split_point) refl

pub split_both :
    (whole fraction : Text)
    → ascii_digits whole ≡ true
    → ascii_digits fraction ≡ true
    → is_empty whole ≡ false
    → split_point (whole ++ (b'.' ∷ fraction)) ≡ ok (whole, fraction)
unfolding split_point
split_both whole fraction a b e =
    rw
      (
        cut_point_some whole fraction a,
        cut_point_none fraction b,
        is_empty-append whole (b'.' ∷ fraction) e,
        is_empty-append whole fraction e,
        ascii_digits-append whole fraction a b,
        split_point,
      )
      refl

-- Digits in range at a scale in range.
of_digits_lem :
    (negative : Bool) (digits : Text) (scale : ℕ)
    → ascii_digits digits ≡ true
    → scale ≤ 10000
    → length digits ≤ 10000
    → of_digits negative digits scale
      ≡ ok (record {
        coefficient = signed negative (digits_value 0 digits);
        scale = pos scale;
        negative_zero = negative && digits_value 0 digits == 0;
      })
unfolding of_digits
of_digits_lem negative digits scale a s l =
    let e = trim_zeros-is_empty digits a in
    let v = trim_zeros-digits_value digits in
    let r : (ltb max_decimal_scale scale || ltb max_decimal_digits (length digits)) ≡ false =
      ground arith in
    elim (Bool-cases (digits_value 0 digits == 0)) [
      | inl z ↦
          let zero_e : digits_value 0 digits ≡ 0 = ground arith in
          let empty : is_empty (trim_zeros digits) ≡ true = e ∙ z in
          rw (r, empty, zero_e, of_digits) (ground arith)
      | inr nz ↦
          let full : is_empty (trim_zeros digits) ≡ false = e ∙ nz in
          rw (r, full, v, nz, of_digits) (ground arith)
    ]

-- What is read back from digits with a point put in at a scale.
abbrev pub printed : Bool → ℕ → ℕ → Decimal
printed negative value scale = record {
  coefficient = signed negative value;
  scale = pos scale;
  negative_zero = negative && value == 0;
}

first_digit :
    (s : Text) → ascii_digits s ≡ true → (c : ℕ) (t : Text) → s ≡ c ∷ t → is_digit c ≡ true
unfolding ascii_digits
first_digit [] a c t e = absurd (cc e)
first_digit (x ∷ s) a c t e = ground arith

pub parse_whole :
    (negative : Bool) (whole : Text)
    → ascii_digits whole ≡ true
    → is_empty whole ≡ false
    → length whole ≤ 10000
    → parse_decimal (whole_text negative whole) ≡ ok (printed negative (digits_value 0 whole) 0)
unfolding at_scale ◌-ℤ◌
parse_whole negative whole a e l =
    parse_plain negative whole (digits-all_plain whole a) e (first_digit whole a) (omega (arith, l))
    ∙ ap (with_point negative (pos 0)) (split_whole whole a e)
    ∙ ap (λ s. of_digits negative s 0) (append-nil whole)
    ∙ of_digits_lem negative whole 0 a (omega arith) l

pub point_plain :
    (whole fraction : Text)
    → ascii_digits whole ≡ true
    → ascii_digits fraction ≡ true
    → all_plain (whole ++ (b'.' ∷ fraction)) ≡ true
unfolding all_plain
point_plain whole fraction a b =
    all_plain-append whole (b'.' ∷ fraction) (digits-all_plain whole a)
      (ground (arith, digits-all_plain fraction b))

pub first_of_whole :
    (whole s : Text)
    → ascii_digits whole ≡ true
    → is_empty whole ≡ false
    → (c : ℕ) (t : Text) → whole ++ s ≡ c ∷ t
    → is_digit c ≡ true
unfolding ascii_digits
first_of_whole [] s a e c t h = ground arith
first_of_whole (x ∷ w) s a e c t h = ground arith

pub minus_zero : (n : ℕ) → pos n -ℤ pos 0 ≡ pos n
minus_zero n = omega int_laws

pub parse_point :
    (negative : Bool) (whole fraction : Text)
    → ascii_digits whole ≡ true
    → ascii_digits fraction ≡ true
    → is_empty whole ≡ false
    → length whole + length fraction ≤ 10000
    → parse_decimal (whole_text negative (whole ++ (b'.' ∷ fraction)))
      ≡ ok (printed negative (digits_value 0 (whole ++ fraction)) (length fraction))
unfolding at_scale ◌-ℤ◌
parse_point negative whole fraction a b e l =
    let body = whole ++ (b'.' ∷ fraction) in
    let lb : length body ≤ 10031 = omega (arith, l, length-append whole (b'.' ∷ fraction)) in
    let ls : length (whole ++ fraction) ≤ 10000 = omega (arith, l, length-append whole fraction) in
    parse_plain negative body (point_plain whole fraction a b)
      (is_empty-append whole (b'.' ∷ fraction) e) (first_of_whole whole (b'.' ∷ fraction) a e) lb
    ∙ ap (with_point negative (pos 0)) (split_both whole fraction a b e)
    ∙ ap (at_scale negative (whole ++ fraction)) (minus_zero (length fraction))
    ∙ of_digits_lem negative (whole ++ fraction) (length fraction)
        (ascii_digits-append whole fraction a b) (omega (arith, l)) ls
