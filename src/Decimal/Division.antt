-- ===== src/Decimal/Division.antt =====
-- `QuoScale` against the exact quotient of the two values.
use native.Mathlib.Nat.{mul-le-mul_right, mul-pos}
use cyp_agent.Base.{
  ℕ, suc, ◌+◌, ◌-◌, ◌*◌, ◌^◌, ◌≤◌, ◌<◌, ◌≡◌, ◌≢◌, refl, sym, ap, ◌∙◌, arith, dec_lt,
}
use cyp_agent.Int.{
  ℤ, pos, negsuc, abs, neg, ◌+ℤ◌, ◌-ℤ◌, ◌*ℤ◌, wrap32, product_parts, *ℤ_pos_part, *ℤ_neg_part,
  -ℤ_parts, int_laws, eq_of_parts, abs-neg, abs-*ℤ, *ℤ_assoc, pos-*ℤ,
}
use cyp_agent.Decimal.{Decimal, ok, RoundingMode, max_decimal_scale}
use cyp_agent.Decimal.Exact.{IsScaled, places, pow-add}
use cyp_agent.Decimal.Compare.{pow_pos}
use cyp_agent.Decimal.Quotient.{scaled_parts, flip_signs, round_quotient, quo_rounded, quo_scale}
use cyp_agent.Decimal.Rounding.{IsNearest, half_up, half_even, round_quotient_near}

wrap32_small : (m : ℕ) → m < 2 ^ 31 → wrap32 (pos m) ≡ pos m
wrap32_small m h = ground arith

-- A quotient scale that is not negative multiplies the numerator.
scaled_parts_up :
    (d other : Decimal) (s : ℕ)
    → IsScaled d
    → IsScaled other
    → places other + s < 2 ^ 31
    → places d ≤ places other + s
    → scaled_parts d other (pos s)
      ≡ (d.coefficient *ℤ pos (10 ^ (places other + s - places d)), other.coefficient)
unfolding scaled_parts
scaled_parts_up d other s v w h le =
    let m = places other + s - places d in
    let e : other.scale -ℤ d.scale +ℤ pos s ≡ pos m = omega int_laws in
    rw (e, wrap32_small m (omega arith)) (ground arith)

-- A negative one multiplies the denominator.
scaled_parts_down :
    (d other : Decimal) (s : ℕ)
    → IsScaled d
    → IsScaled other
    → places other + s < places d
    → scaled_parts d other (pos s)
      ≡ (d.coefficient, other.coefficient *ℤ pos (10 ^ (places d - (places other + s))))
unfolding scaled_parts
scaled_parts_down d other s v w lt =
    let m = places d - (places other + s) in
    let e : other.scale -ℤ d.scale +ℤ pos s ≡ negsuc (m - 1) = omega int_laws in
    let n : neg (negsuc (m - 1)) ≡ pos m = omega int_laws in
    rw (e, n, wrap32_small m (omega arith)) (ground arith)

-- Two powers of ten in a row.
pow_step : (c : ℤ) (a b t : ℕ) → a + b ≡ t → c *ℤ pos (10 ^ a) *ℤ pos (10 ^ b) ≡ c *ℤ pos (10 ^ t)
pow_step c a b t e = rw (← e, pow-add, *ℤ_assoc, pos-*ℤ)

-- Numerator and denominator are the exact ones, divided by a common power of ten.
scaled_parts_lem :
    (d other : Decimal) (s : ℕ)
    → IsScaled d
    → IsScaled other
    → places other + s < 2 ^ 31
    → (f : ℕ) × ((scaled_parts d other (pos s)).0 *ℤ pos f
        ≡ d.coefficient *ℤ pos (10 ^ (places other + s)))
      × ((scaled_parts d other (pos s)).1 *ℤ pos f ≡ other.coefficient *ℤ pos (10 ^ places d))
scaled_parts_lem d other s v w h = elim (dec_lt (places other + s) (places d)) [
  | yes lt ↦
      let e = scaled_parts_down d other s v w lt in
      (
        10 ^ (places other + s),
        ap (λ r. r.0 *ℤ pos (10 ^ (places other + s))) e,
        ap (λ r. r.1 *ℤ pos (10 ^ (places other + s))) e
            ∙ pow_step other.coefficient (places d - (places other + s)) (places other + s)
                (places d) (omega arith),
      )
  | no ge ↦
      let e = scaled_parts_up d other s v w h (omega arith) in
      (
        10 ^ places d,
        ap (λ r. r.0 *ℤ pos (10 ^ places d)) e
            ∙ pow_step d.coefficient (places other + s - places d) (places d) (places other + s)
                (omega arith),
        ap (λ r. r.1 *ℤ pos (10 ^ places d)) e,
      )
]

neg_difference : (q n : ℤ) (k : ℕ) → q *ℤ negsuc k -ℤ n ≡ neg (q *ℤ pos (suc k) -ℤ neg n)
neg_difference q n k = omega (int_laws, *ℤ_pos_part q (negsuc k), *ℤ_neg_part q (negsuc k))

if_flip : (n : ℤ) (k : ℕ) → flip_signs (n, negsuc k) ≡ (neg n, neg (negsuc k))
if_flip n k = ground arith

near_of_parts :
    (mode : RoundingMode) (n den : ℤ)
    → IsNearest mode
    → abs den ≢ 0
    → let r = flip_signs (n, den) in 2 * abs (round_quotient mode r.0 r.1 *ℤ den -ℤ n) ≤ abs den
near_of_parts mode n (pos k) h z = ground (arith, round_quotient_near mode n k h)
near_of_parts mode n (negsuc k) h z =
    let e : neg (negsuc k) ≡ pos (suc k) = omega int_laws in
    let q = round_quotient mode (neg n) (pos (suc k)) in
    let near = round_quotient_near mode (neg n) (suc k) h (omega arith) in
    let same : abs (q *ℤ negsuc k -ℤ n) ≡ abs (q *ℤ pos (suc k) -ℤ neg n) =
      ap abs (neg_difference q n k) ∙ abs-neg (q *ℤ pos (suc k) -ℤ neg n) in
    rw (if_flip n k, e, same) near

difference_scaled :
    (q n den : ℤ) (f : ℕ) → q *ℤ (den *ℤ pos f) -ℤ n *ℤ pos f ≡ (q *ℤ den -ℤ n) *ℤ pos f
difference_scaled q n den f =
    let outer = simp product_parts at (-ℤ_parts (q *ℤ (den *ℤ pos f)) (n *ℤ pos f)) in
    let inner = simp product_parts at (ap (λ (t : ℕ). t * f) (-ℤ_parts (q *ℤ den) n)) in
    eq_of_parts _ _ (simp product_parts (omega (arith, outer, inner)))

near_scaled :
    (q n den : ℤ) (f : ℕ)
    → 2 * abs (q *ℤ den -ℤ n) ≤ abs den
    → 2 * abs (q *ℤ (den *ℤ pos f) -ℤ n *ℤ pos f) ≤ abs (den *ℤ pos f)
near_scaled q n den f h =
    rw (difference_scaled q n den f, abs-*ℤ (q *ℤ den -ℤ n) f, abs-*ℤ den f)
      (omega (arith, mul-le-mul_right f h))

quo_scale_ok :
    (d other : Decimal) (s : ℕ) (mode : RoundingMode)
    → abs other.coefficient ≢ 0
    → s ≤ max_decimal_scale
    → IsNearest mode
    → quo_scale d other (pos s) mode ≡ ok (quo_rounded d other (pos s) mode)
unfolding quo_scale
quo_scale_ok d other s _ z le half_up = ground arith
quo_scale_ok d other s _ z le half_even = ground arith

nonzero_of_scaled :
    (den c : ℤ) (f p : ℕ) → den *ℤ pos f ≡ c *ℤ pos p → 0 < p → abs c ≢ 0 → abs den ≢ 0
nonzero_of_scaled den c f p e hp z e0 =
    let same : abs den * f ≡ abs c * p = sym (abs-*ℤ den f) ∙ ap abs e ∙ abs-*ℤ c p in
    let empty : 0 * f ≡ abs c * p = rw e0 at same in
    let full : 0 < abs c * p = mul-pos (omega arith) hp in omega arith

-- For operands whose scale is between 0 and 2^31 - 1, a divisor that is not 0, a target scale s of
-- 0 to 10000 with s and the divisor's scale below 2^31, and a half-up or half-even mode, division
-- returns a decimal of scale s whose distance from the exact quotient is at most half a unit of
-- 10^-s: with D / O the exact quotient in that unit, the coefficient q has 2 |q O - D| ≤ |O|.
pub quo_scale-near :
    (d other : Decimal) (s : ℕ) (mode : RoundingMode)
    → IsScaled d
    → IsScaled other
    → places other + s < 2 ^ 31
    → s ≤ max_decimal_scale
    → abs other.coefficient ≢ 0
    → IsNearest mode
    → let exact_d = d.coefficient *ℤ pos (10 ^ (places other + s)) in
      let exact_o = other.coefficient *ℤ pos (10 ^ places d) in
      (r : Decimal) × (quo_scale d other (pos s) mode ≡ ok r)
      × (r.scale ≡ pos s)
      × (2 * abs (r.coefficient *ℤ exact_o -ℤ exact_d) ≤ abs exact_o)
quo_scale-near d other s mode v w h le z m =
    let (f, en, ed) = scaled_parts_lem d other s v w h in
    let (n, den) = scaled_parts d other (pos s) in
    let q = (quo_rounded d other (pos s) mode).coefficient in
    let nz : abs den ≢ 0 =
      nonzero_of_scaled den other.coefficient f (10 ^ places d) ed (pow_pos (places d)) z in
    let near : 2 * abs (q *ℤ den -ℤ n) ≤ abs den =
      unfold quo_rounded in near_of_parts mode n den m nz in
    (
      quo_rounded d other (pos s) mode,
      quo_scale_ok d other s mode z le m,
      unfold quo_rounded in refl,
      rw (← en, ← ed) (near_scaled q n den f near),
    )
