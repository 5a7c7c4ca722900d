-- ===== src/Decimal/Order.antt =====
-- `Cmp` as an order on the values.
use cyp_agent.Base.{ℕ, ◌+◌, ◌≤◌, ◌≡◌, ◌↔◌, true, false, arith}
use cyp_agent.Int.{ℤ, ◌≤ℤ◌}
use cyp_agent.Decimal.{Decimal, cmp, cmp_ℤ, gt_zero, lt_zero}
use cyp_agent.Decimal.Exact.{IsScaled, places, units}
use cyp_agent.Decimal.Compare.{cmp-units}

-- `d.Cmp(e) <= 0`.
abbrev pub IsAtMost : Decimal → Decimal → Type 0
IsAtMost d e = gt_zero (cmp d e) ≡ false

cmp_ℤ_le : (a b : ℤ) → (gt_zero (cmp_ℤ a b) ≡ false) ↔ (a ≤ℤ b)
unfolding cmp_ℤ
cmp_ℤ_le a b = ground arith

cmp_ℤ_below : (a b : ℤ) → (lt_zero (cmp_ℤ a b) ≡ false) ↔ (b ≤ℤ a)
unfolding cmp_ℤ
cmp_ℤ_below a b = ground arith

-- The comparison holds of the values at any precision that both fit.
pub IsAtMost-iff :
    (k : ℕ) (d e : Decimal)
    → IsScaled d
    → IsScaled e
    → places d ≤ k
    → places e ≤ k
    → IsAtMost d e ↔ (units k d ≤ℤ units k e)
IsAtMost-iff k d e v w p q = rw (cmp-units k d e v w p q) (cmp_ℤ_le (units k d) (units k e))

pub not_below_iff :
    (k : ℕ) (d e : Decimal)
    → IsScaled d
    → IsScaled e
    → places d ≤ k
    → places e ≤ k
    → (lt_zero (cmp d e) ≡ false) ↔ (units k e ≤ℤ units k d)
not_below_iff k d e v w p q = rw (cmp-units k d e v w p q) (cmp_ℤ_below (units k d) (units k e))

pub IsAtMost-trans :
    (d e f : Decimal)
    → IsScaled d
    → IsScaled e
    → IsScaled f
    → IsAtMost d e
    → IsAtMost e f
    → IsAtMost d f
IsAtMost-trans d e f v w x h k =
    let m = places d + places e + places f in
    let a = (IsAtMost-iff m d e v w (omega arith) (omega arith)).0 h in
    let b = (IsAtMost-iff m e f w x (omega arith) (omega arith)).0 k in
    (IsAtMost-iff m d f v x (omega arith) (omega arith)).1 (omega arith)

pub IsAtMost-refl : (d : Decimal) → IsScaled d → IsAtMost d d
IsAtMost-refl d v = (IsAtMost-iff (places d) d d v v (omega arith) (omega arith)).1 (omega arith)

both_signs : (c : ℤ) → lt_zero c ≡ true → gt_zero c ≡ false
both_signs c h = ground arith

-- Of two decimals that are not in order one way, they are the other way.
pub IsAtMost-of_below :
    (d e : Decimal) → IsScaled d → IsScaled e → lt_zero (cmp d e) ≡ true → IsAtMost d e
IsAtMost-of_below d e v w h = both_signs (cmp d e) h

pub IsAtMost-of_not_below :
    (d e : Decimal) → IsScaled d → IsScaled e → lt_zero (cmp d e) ≡ false → IsAtMost e d
IsAtMost-of_not_below d e v w h =
    let m = places d + places e in
    (IsAtMost-iff m e d w v (omega arith) (omega arith)).1
      ((not_below_iff m d e v w (omega arith) (omega arith)).0 h)
