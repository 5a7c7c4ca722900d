-- ===== src/Decimal/Json.antt =====
-- `MarshalJSON` and `UnmarshalJSON` of internal/contracts/decimal.go, one after the other: the JSON
-- string of the printed number holds it as it is, so what is read is the parse of what was printed.
use cyp_agent.Base.{
  true, false, leb, leb→le, arith, ◌≡◌, ◌≤◌, ◌<◌, refl, ap, Option, none, some, List, [], ◌∷◌, All,
  length,
}
use cyp_agent.Int.{pos, abs, pos_part, neg_part}
use cyp_agent.Decimal.{Decimal, Result, ok, err}
use cyp_agent.Decimal.Text.{to_text, digits_text}
use cyp_agent.Decimal.Parse.{parse_decimal, IsParsed}
use cyp_agent.Decimal.RoundTrip.{parse_decimal-to_text}

abbrev pub and_then {ℓ κ} : {A : Type ℓ} {B : Type κ} → Option A → (A → Option B) → Option B
and_then none f = none
and_then (some a) f = f a

abbrev pub read_result : Result Decimal → Option Decimal
read_result (ok d) = some d
read_result (err _) = none

unfoldable pub decimal_json : Decimal → Option Decimal
decimal_json d = and_then (to_text d) (λ text. read_result (parse_decimal text))

-- The values of a list, or of a pointer, through JSON one after another.
module _ {A : Type 0} (json : A → Option A) where
  unfoldable pub list_json : List A → Option (List A)
  list_json [] = some []
  list_json (x ∷ xs) =
      let rest = list_json xs in and_then (json x) (λ y. and_then rest (λ ys. some (y ∷ ys)))

  abbrev pub pointer_json : Option A → Option (Option A)
  pointer_json none = some none
  pointer_json (some x) = and_then (json x) (λ y. some (some y))

-- What a pointer holds, if anything, satisfies `P`.
abbrev pub Held : {A : Type 0} → (A → Type 0) → Option A → Type 0
Held P none = Unit
Held P (some x) = P x

-- A decimal that parsing can yield and that is not too long to be printed and read again.
pub record IsPrintable (d : Decimal) : Type 0 where
  pub parsed : IsParsed d
  pub small_scale : pos_part d.scale < 10000
  pub few_digits : length (digits_text (abs d.coefficient)) ≤ 10000

pub decimal_json_same : (d : Decimal) → IsPrintable d → decimal_json d ≡ some d
unfolding decimal_json
decimal_json_same d v =
    let (text, shown, read) = parse_decimal-to_text d v.parsed v.small_scale v.few_digits in
    rw (shown, read) refl

module _ {A : Type 0} (json : A → Option A) (P : A → Type 0)
    (same : (x : A) → P x → json x ≡ some x) where
  pub list_json_same : (xs : List A) → All P xs → list_json json xs ≡ some xs
  unfolding list_json
  list_json_same [] h = refl
  list_json_same (x ∷ xs) (p, h) = rw (same x p, list_json_same xs h) refl

  pub pointer_json_same : (o : Option A) → Held P o → pointer_json json o ≡ some o
  pointer_json_same none h = refl
  pointer_json_same (some x) p = rw (same x p) refl

-- A whole number with few digits is printable.
pub whole-IsPrintable :
    (d : Decimal)
    → d.negative_zero ≡ false
    → d.scale ≡ pos 0
    → leb (length (digits_text (abs d.coefficient))) 10000 ≡ true
    → IsPrintable d
whole-IsPrintable d unsigned whole short = record {
  parsed = record {
    nonneg = ap neg_part whole;
    bounded = rw whole (omega arith);
    signed_zero = λ h. absurd (ground (arith, unsigned));
  };
  small_scale = rw whole (omega arith);
  few_digits = leb→le (length (digits_text (abs d.coefficient))) 10000 short;
}
