-- ===== src/Decimal/Digits.antt =====
-- The digits that `String` prints name the number that they are printed from.
use cyp_agent.Base.{
  ℕ, zero, suc, ◌+◌, ◌-◌, ◌*◌, ◌/◌, ◌%◌, ◌≤◌, ◌<◌, ◌≡◌, refl, ap, ◌∙◌, true, false, [], ◌∷◌, ◌++◌,
  ◌==◌, replicate, Text, is_digit, dec_lt, arith,
}
use cyp_agent.Decimal.Parse.{ascii_digits, digits_value, trim_zeros, is_empty}
use cyp_agent.Decimal.Text.{digits_loop, digits_text}

pub ascii_digits-append :
    (s t : Text) → ascii_digits s ≡ true → ascii_digits t ≡ true → ascii_digits (s ++ t) ≡ true
unfolding ascii_digits
ascii_digits-append [] t h k = k
ascii_digits-append (c ∷ s) t h k = ground (arith, ascii_digits-append s t)

pub digits_value-append :
    (acc : ℕ) (s t : Text) → digits_value acc (s ++ t) ≡ digits_value (digits_value acc s) t
unfolding digits_value
digits_value-append acc [] t = refl
digits_value-append acc (c ∷ s) t = digits_value-append (10 * acc + (c - b'0')) s t

zero_digits : (k : ℕ) → digits_value 0 (replicate k b'0') ≡ 0
unfolding digits_value
zero_digits zero = refl
zero_digits (suc k) = zero_digits k

pub digits_value-leading_zeros :
    (k : ℕ) (s : Text) → digits_value 0 (replicate k b'0' ++ s) ≡ digits_value 0 s
digits_value-leading_zeros k s =
    digits_value-append 0 (replicate k b'0') s ∙ ap (λ n. digits_value n s) (zero_digits k)

pub ascii_digits-zeros : (k : ℕ) → ascii_digits (replicate k b'0') ≡ true
unfolding ascii_digits
ascii_digits-zeros zero = refl
ascii_digits-zeros (suc k) = ascii_digits-zeros k

digits_loop_small :
    (fuel n : ℕ) (later : Text) → n < 10 → digits_loop (suc fuel) n later ≡ (b'0' + n) ∷ later
unfolding digits_loop
digits_loop_small fuel n later l =
    elim (dec_lt n 10)
      as (λ x.
        elim x as (λ y. Text) [
          | yes _ ↦ (b'0' + n) ∷ later
          | no _ ↦ digits_loop fuel (n / 10) ((b'0' + n % 10) ∷ later)
        ]
        ≡ (b'0' + n) ∷ later) [ yes _ ↦ refl | no g ↦ absurd (g l) ]

digits_loop_large :
    (fuel n : ℕ) (later : Text)
    → ¬ n < 10
    → digits_loop (suc fuel) n later ≡ digits_loop fuel (n / 10) ((b'0' + n % 10) ∷ later)
unfolding digits_loop
digits_loop_large fuel n later g =
    elim (dec_lt n 10)
      as (λ x.
        elim x as (λ y. Text) [
          | yes _ ↦ (b'0' + n) ∷ later
          | no _ ↦ digits_loop fuel (n / 10) ((b'0' + n % 10) ∷ later)
        ]
        ≡ digits_loop fuel (n / 10) ((b'0' + n % 10) ∷ later)) [
          | yes l ↦ absurd (g l)
          | no _ ↦ refl
        ]

digits_loop-ascii_digits :
    (fuel n : ℕ) (later : Text)
    → ascii_digits later ≡ true
    → ascii_digits (digits_loop fuel n later) ≡ true
unfolding digits_loop ascii_digits
digits_loop-ascii_digits zero n later h = h
digits_loop-ascii_digits (suc fuel) n later h = elim (dec_lt n 10) [
  | yes l ↦ rw (digits_loop_small fuel n later l) (ground arith)
  | no g ↦
      let last : is_digit (b'0' + n % 10) ≡ true = ground arith in
      rw (digits_loop_large fuel n later g)
        (digits_loop-ascii_digits fuel (n / 10) ((b'0' + n % 10) ∷ later) (ground arith))
]

digits_loop-digits_value :
    (fuel n : ℕ) (later : Text)
    → n < fuel
    → digits_value 0 (digits_loop fuel n later) ≡ digits_value n later
unfolding digits_loop digits_value
digits_loop-digits_value zero n later h = omega (arith, h)
digits_loop-digits_value (suc fuel) n later h = elim (dec_lt n 10) [
  | yes l ↦
      let e : 10 * 0 + (b'0' + n - b'0') ≡ n = omega arith in
      rw (digits_loop_small fuel n later l) (ap (λ m. digits_value m later) e)
  | no g ↦
      let e : 10 * (n / 10) + (b'0' + n % 10 - b'0') ≡ n = omega arith in
      rw (digits_loop_large fuel n later g) (
        digits_loop-digits_value fuel (n / 10) ((b'0' + n % 10) ∷ later) (omega (arith, g, h))
        ∙ ap (λ m. digits_value m later) e)
]

digits_loop-nonempty :
    (fuel n : ℕ) (later : Text) → n < fuel → is_empty (digits_loop fuel n later) ≡ false
unfolding digits_loop
digits_loop-nonempty zero n later h = absurd (omega (arith, h))
digits_loop-nonempty (suc fuel) n later h = elim (dec_lt n 10) [
  | yes l ↦ rw (digits_loop_small fuel n later l) refl
  | no g ↦
      rw (digits_loop_large fuel n later g)
        (digits_loop-nonempty fuel (n / 10) ((b'0' + n % 10) ∷ later) (omega (arith, g, h)))
]

pub digits_text_lem :
    (n : ℕ)
    → (ascii_digits (digits_text n) ≡ true)
      × (digits_value 0 (digits_text n) ≡ n)
      × (is_empty (digits_text n) ≡ false)
unfolding digits_text ascii_digits digits_value
digits_text_lem n = (
  digits_loop-ascii_digits (suc n) n [] refl,
  digits_loop-digits_value (suc n) n [] (omega arith),
  digits_loop-nonempty (suc n) n [] (omega arith),
)

digits_value-ge : (acc : ℕ) (s : Text) → acc ≤ digits_value acc s
unfolding digits_value
digits_value-ge acc [] = omega arith
digits_value-ge acc (c ∷ s) = omega (arith, digits_value-ge (10 * acc + (c - b'0')) s)

pub trim_zeros-digits_value : (s : Text) → digits_value 0 (trim_zeros s) ≡ digits_value 0 s
unfolding trim_zeros digits_value
trim_zeros-digits_value [] = refl
trim_zeros-digits_value (c ∷ s) = ground (arith, trim_zeros-digits_value s)

pub trim_zeros-is_empty :
    (s : Text) → ascii_digits s ≡ true → is_empty (trim_zeros s) ≡ (digits_value 0 s == 0)
unfolding trim_zeros digits_value ascii_digits
trim_zeros-is_empty [] h = refl
trim_zeros-is_empty (c ∷ s) h = ground (arith, trim_zeros-is_empty s, digits_value-ge (c - b'0') s)
