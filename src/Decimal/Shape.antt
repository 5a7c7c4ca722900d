-- ===== src/Decimal/Shape.antt =====
-- How `ParseDecimal` reads a text that is a sign, digits and at most one point.
use mathlib.Core.List.{reverse, reverse_aux, reverse-reverse}
use cyp_agent.Base.{
  ℕ, ◌≡◌, refl, ap, ◌∙◌, Bool, true, false, ◌&&◌, ◌||◌, none, some, [], ◌∷◌, ◌++◌, if◌then◌else◌,
  ◌==◌, length, Text, is_digit, is_space, trim_left, trim_space, byte_len, rune_len, arith,
}
use cyp_agent.Decimal.Parse.{ascii_digits, is_empty, cut, is_exponent_mark, is_point, take_sign}

-- A sign, a digit or a point: what stands in such a text.
abbrev pub is_plain : ℕ → Bool
is_plain c = is_digit c || c == b'.' || c == b'-'

unfoldable pub all_plain : Text → Bool
all_plain [] = true
all_plain (c ∷ s) = is_plain c && all_plain s

plain_no_space : (c : ℕ) → is_plain c ≡ true → is_space c ≡ false
plain_no_space c h = ground arith

plain_short : (c : ℕ) → is_plain c ≡ true → rune_len c ≡ 1
plain_short c h = ground arith

trim_left_lem : (s : Text) → all_plain s ≡ true → trim_left s ≡ s
unfolding all_plain trim_left
trim_left_lem [] h = refl
trim_left_lem (c ∷ s) h = ground (arith, plain_no_space c)

pub all_plain-append :
    (s t : Text) → all_plain s ≡ true → all_plain t ≡ true → all_plain (s ++ t) ≡ true
unfolding all_plain
all_plain-append [] t h k = k
all_plain-append (c ∷ s) t h k = ground (arith, all_plain-append s t)

all_plain-reverse_aux :
    (s t : Text) → all_plain s ≡ true → all_plain t ≡ true → all_plain (reverse_aux s t) ≡ true
unfolding all_plain
all_plain-reverse_aux [] t h k = k
all_plain-reverse_aux (c ∷ s) t h k = all_plain-reverse_aux s (c ∷ t) (ground arith) (ground arith)

pub trim_space_lem : (s : Text) → all_plain s ≡ true → trim_space s ≡ s
unfolding trim_space
trim_space_lem s h =
    let inner : trim_left (reverse s) ≡ reverse s =
      trim_left_lem (reverse s) (all_plain-reverse_aux s [] h (unfold all_plain in refl)) in
    ap (λ u. reverse (trim_left (reverse u))) (trim_left_lem s h)
    ∙ ap reverse inner
    ∙ reverse-reverse s

pub byte_len_lem : (s : Text) → all_plain s ≡ true → byte_len s ≡ length s
unfolding all_plain
byte_len_lem [] h = refl
byte_len_lem (c ∷ s) h = ground (arith, plain_short c, byte_len_lem s)

plain_no_exponent : (c : ℕ) → is_plain c ≡ true → is_exponent_mark c ≡ false
plain_no_exponent c h = ground arith

pub cut_exponent : (s : Text) → all_plain s ≡ true → cut is_exponent_mark s ≡ none
unfolding cut all_plain
cut_exponent [] h = refl
cut_exponent (c ∷ s) h = ground (arith, plain_no_exponent c, cut_exponent s)

pub cut_point_none : (s : Text) → ascii_digits s ≡ true → cut is_point s ≡ none
unfolding cut ascii_digits
cut_point_none [] h = refl
cut_point_none (c ∷ s) h = ground (arith, cut_point_none s)

pub cut_point_some :
    (s t : Text) → ascii_digits s ≡ true → cut is_point (s ++ (b'.' ∷ t)) ≡ some (s, t)
unfolding cut ascii_digits
cut_point_some [] t h = refl
cut_point_some (c ∷ s) t h = ground (arith, cut_point_some s t)

pub digits-all_plain : (s : Text) → ascii_digits s ≡ true → all_plain s ≡ true
unfolding ascii_digits all_plain
digits-all_plain [] h = refl
digits-all_plain (c ∷ s) h = ground (arith, digits-all_plain s)

-- The text of whole digits, and with a fraction behind a point.
abbrev pub whole_text : Bool → Text → Text
whole_text negative whole = if negative then b'-' ∷ whole else whole

pub take_sign-whole_text :
    (negative : Bool) (s : Text)
    → is_empty s ≡ false
    → ((c : ℕ) (t : Text) → s ≡ c ∷ t → is_digit c ≡ true)
    → take_sign (whole_text negative s) ≡ (negative, s)
take_sign-whole_text true s e d = refl
take_sign-whole_text false [] e d = ground arith
take_sign-whole_text false (c ∷ s) e d = ground (arith, d c s refl)
