-- ===== src/Decimal/Room.antt =====
-- Sums, differences and the order of the values.
use cyp_agent.Base.{ℕ, ◌+◌, ◌-◌, ◌^◌, ◌≡◌, ◌↔◌, ◌∙◌, ap, arith}
use cyp_agent.Int.{zero-*ℤ, ℤ, pos, ◌+ℤ◌, ◌-ℤ◌, ◌≤ℤ◌, int_laws}
use cyp_agent.Decimal.{Decimal, add, sub, neg_decimal, zero_decimal}
use cyp_agent.Decimal.Exact.{
  IsScaled, places, units, units-add_decimal, units-sub, add-IsScaled, neg_decimal-IsScaled,
}
use cyp_agent.Decimal.Order.{IsAtMost, IsAtMost-iff}

pub sub-IsScaled : (d e : Decimal) → IsScaled d → IsScaled e → IsScaled (sub d e)
unfolding sub
sub-IsScaled d e v w = add-IsScaled d (neg_decimal e) v (neg_decimal-IsScaled e w)

move : (a b c : ℤ) → (a ≤ℤ c -ℤ b) ↔ (a +ℤ b ≤ℤ c)
move a b c = (λ h. omega int_laws, λ h. omega int_laws)

-- For decimals whose scale is between 0 and 2^31 - 1, a size compares as at most the limit less
-- the used amount exactly when the size with the used amount compares as at most the limit.
pub add-IsAtMost_iff :
    (size used limit : Decimal)
    → IsScaled size
    → IsScaled used
    → IsScaled limit
    → IsAtMost size (sub limit used) ↔ IsAtMost (add size used) limit
add-IsAtMost_iff s u l v w x =
    let k = places s + places u + places l + places (sub l u) + places (add s u) in
    let room = IsAtMost-iff k s (sub l u) v (sub-IsScaled l u x w) (omega arith) (omega arith) in
    let total = IsAtMost-iff k (add s u) l (add-IsScaled s u v w) x (omega arith) (omega arith) in
    let difference = units-sub k l u x w (omega arith) (omega arith) in
    let sum = units-add_decimal k s u v w (omega arith) (omega arith) in
    let swap = move (units k s) (units k u) (units k l) in
    (
      λ h. total.1 (rw sum (swap.0 (rw difference at (room.0 h)))),
      λ h. room.1 (rw difference (swap.1 (rw sum at (total.0 h)))),
    )

grow : (a b c : ℤ) → a ≤ℤ b → a +ℤ c ≤ℤ b +ℤ c
grow a b c h = omega int_laws

pub add-IsAtMost_mono :
    (d e u : Decimal)
    → IsScaled d
    → IsScaled e
    → IsScaled u
    → IsAtMost d e
    → IsAtMost (add d u) (add e u)
add-IsAtMost_mono d e u v w x h =
    let k = places d + places e + places u + places (add d u) + places (add e u) in
    let both =
      IsAtMost-iff k (add d u) (add e u) (add-IsScaled d u v x) (add-IsScaled e u w x) (omega arith)
        (omega arith) in
    let values = (IsAtMost-iff k d e v w (omega arith) (omega arith)).0 h in
    both.1 (
      rw
        (
          units-add_decimal k d u v x (omega arith) (omega arith),
          units-add_decimal k e u w x (omega arith) (omega arith),
        )
        (grow (units k d) (units k e) (units k u) values))

pub units-zero_decimal : (k : ℕ) → units k zero_decimal ≡ pos 0
unfolding units
units-zero_decimal k = zero-*ℤ (pos (10 ^ (k - 0)))

less_zero : (a b : ℤ) → a ≤ℤ b -ℤ pos 0 → a ≤ℤ b
less_zero a b h = omega int_laws

pub zero_decimal-IsScaled : IsScaled zero_decimal
zero_decimal-IsScaled = omega arith

-- Taking away nothing leaves the bound.
pub sub_zero-IsAtMost :
    (d l : Decimal) → IsScaled d → IsScaled l → IsAtMost d (sub l zero_decimal) → IsAtMost d l
sub_zero-IsAtMost d l v w h =
    let k = places d + places l + places (sub l zero_decimal) in
    let z = zero_decimal-IsScaled in
    let values =
      (IsAtMost-iff k d (sub l zero_decimal) v (sub-IsScaled l zero_decimal w z) (omega arith)
          (omega arith)).0
        h in
    let difference =
      units-sub k l zero_decimal w z (omega arith) (omega arith)
      ∙ ap (λ t. units k l -ℤ t) (units-zero_decimal k) in
    (IsAtMost-iff k d l v w (omega arith) (omega arith)).1
      (less_zero (units k d) (units k l) (rw difference at values))
