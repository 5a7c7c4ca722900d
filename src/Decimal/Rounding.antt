-- ===== src/Decimal/Rounding.antt =====
-- `QuoScale` returns the nearest multiple of its unit, and `RoundDown` the one next to it toward 0.
use cyp_agent.Base.{
  ℕ, zero, suc, ◌+◌, ◌-◌, ◌*◌, ◌/◌, ◌%◌, ◌≤◌, ◌<◌, ◌≡◌, refl, sym, ap, ◌∙◌, Bool, true, false, ◌&&◌,
  not, arith, ◌==◌, if◌then◌else◌,
}
use cyp_agent.Int.{
  ℤ, pos, pos_part, neg_part, abs, ◌+ℤ◌, ◌-ℤ◌, ◌*ℤ◌, product_parts, eq_of_parts, pos-*ℤ,
}
use cyp_agent.Decimal.{RoundingMode, round_half_up, round_half_even, lt_zero, signed}
use cyp_agent.Decimal.Quotient.{round_quotient, is_round_down, round_away}

-- The magnitude of the rounded quotient of `m` by `k`.
magnitude : RoundingMode → ℕ → ℕ → ℕ
magnitude mode m k =
    if not (m % k == 0) && not (is_round_down mode) && round_away mode (m / k) (m % k) k
    then m / k + 1
    else m / k

signed_step :
    (b a : Bool) (q : ℕ)
    → (if a then if b then signed b q -ℤ pos 1 else signed b q +ℤ pos 1 else signed b q)
      ≡ signed b (if a then q + 1 else q)
unfolding ◌-ℤ◌ ◌+ℤ◌
signed_step b a zero = ground arith
signed_step b a (suc q) = ground arith

abs-signed : (b : Bool) (q : ℕ) → abs (signed b q) ≡ q
abs-signed true zero = refl
abs-signed true (suc q) = omega arith
abs-signed false q = omega arith

round_quotient_lem :
    (mode : RoundingMode) (n : ℤ) (k : ℕ)
    → round_quotient mode n (pos k) ≡ signed (lt_zero n) (magnitude mode (abs n) k)
unfolding round_quotient magnitude
round_quotient_lem mode n k =
    let b = lt_zero n in
    let q = abs n / k in
    let r = abs n % k in
    ap
      (λ (t : ℕ).
        (if not (r == 0) && not (is_round_down mode) && round_away mode t r k
          then if b then signed b q -ℤ pos 1 else signed b q +ℤ pos 1
          else signed b q))
      (abs-signed b q)
    ∙ signed_step b (not (r == 0) && not (is_round_down mode) && round_away mode q r k) q

-- `RoundHalfUp` or `RoundHalfEven`.
pub data IsNearest : RoundingMode → Type 0 where
  half_up : IsNearest round_half_up
  half_even : IsNearest round_half_even

near_core :
    (m k q r : ℕ) (a : Bool)
    → k * q + r ≡ m
    → r < k
    → (a ≡ true → k ≤ 2 * r)
    → (a ≡ false → 2 * r ≤ k)
    → (2 * ((if a then q + 1 else q) * k) ≤ 2 * m + k)
      × (2 * m ≤ 2 * ((if a then q + 1 else q) * k) + k)
near_core m k q r true e h up down = let u = up refl in omega arith
near_core m k q r false e h up down = let u = down refl in omega arith

magnitude_near :
    (mode : RoundingMode) (m k : ℕ)
    → IsNearest mode
    → 0 < k
    → (2 * (magnitude mode m k * k) ≤ 2 * m + k) × (2 * m ≤ 2 * (magnitude mode m k * k) + k)
unfolding magnitude round_away
magnitude_near _ m k half_up p =
    near_core m k (m / k) (m % k) _ (omega arith) (omega arith) (ground arith) (ground arith)
magnitude_near _ m k half_even p =
    near_core m k (m / k) (m % k) _ (omega arith) (omega arith) (ground arith) (ground arith)

pos_part-signed : (q : ℕ) → pos_part (signed true q) ≡ 0
pos_part-signed zero = refl
pos_part-signed (suc q) = refl

neg_part-signed : (q : ℕ) → neg_part (signed true q) ≡ q
neg_part-signed zero = refl
neg_part-signed (suc q) = refl

pub signed-*ℤ : (b : Bool) (q k : ℕ) → signed b q *ℤ pos k ≡ signed b (q * k)
signed-*ℤ true q k =
    eq_of_parts _ _ (simp (product_parts, pos_part-signed, neg_part-signed) (omega arith))
signed-*ℤ false q k = pos-*ℤ q k

abs-signed_sub : (b : Bool) (x m : ℕ) → abs (signed b x -ℤ signed b m) ≡ x - m + (m - x)
unfolding ◌-ℤ◌
abs-signed_sub true zero zero = omega arith
abs-signed_sub true zero (suc m) = ground arith
abs-signed_sub true (suc x) zero = ground arith
abs-signed_sub true (suc x) (suc m) = ground arith
abs-signed_sub false x m = ground arith

pub signed_self : (n : ℤ) → signed (lt_zero n) (abs n) ≡ n
signed_self n = ground arith

-- The rounded quotient is within half a denominator.
pub round_quotient_near :
    (mode : RoundingMode) (n : ℤ) (k : ℕ)
    → IsNearest mode
    → 0 < k
    → 2 * abs (round_quotient mode n (pos k) *ℤ pos k -ℤ n) ≤ k
round_quotient_near mode n k h p =
    let q = magnitude mode (abs n) k in
    let (lo, hi) = magnitude_near mode (abs n) k h p in
    let e : abs (round_quotient mode n (pos k) *ℤ pos k -ℤ n) ≡ q * k - abs n + (abs n - q * k) =
      rw (round_quotient_lem mode n k, signed-*ℤ)
        (ap (λ z. abs (signed (lt_zero n) (q * k) -ℤ z)) (sym (signed_self n))
          ∙ abs-signed_sub (lt_zero n) (q * k) (abs n)) in
    rw e (omega arith)
