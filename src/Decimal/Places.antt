-- ===== src/Decimal/Places.antt =====
-- How many places the results of the operations have.
use cyp_agent.Base.{ℕ, ◌+◌, ◌^◌, ◌≤◌, ◌<◌, ◌≡◌, arith, inl, inr}
use cyp_agent.Int.{pos, neg_part, ◌+ℤ◌}
use cyp_agent.Decimal.{Decimal, ok, Result-cases, add, sub, mul, neg_decimal, round_half_even}
use cyp_agent.Decimal.Exact.{IsScaled, places, add_lem}
use cyp_agent.Decimal.Quotient.{quo, quo_scale, quo_rounded, normalize}
use cyp_agent.Decimal.Normal.{normalize_lem}

-- Between 0 and n places.
pub record IsWithin (n : ℕ) (d : Decimal) : Type 0 where
  pub nonneg : neg_part d.scale ≡ 0
  pub at_most : places d ≤ n

pub IsWithin-IsScaled : (n : ℕ) (d : Decimal) → n < 2 ^ 31 → IsWithin n d → IsScaled d
IsWithin-IsScaled n d h v = ground arith

pub add-IsWithin :
    (n : ℕ) (d e : Decimal) → n < 2 ^ 31 → IsWithin n d → IsWithin n e → IsWithin n (add d e)
add-IsWithin n d e h v w =
    rw (add_lem d e (IsWithin-IsScaled n d h v) (IsWithin-IsScaled n e h w)) (ground arith)

pub neg_decimal-IsWithin : (n : ℕ) (d : Decimal) → IsWithin n d → IsWithin n (neg_decimal d)
unfolding neg_decimal
neg_decimal-IsWithin n d v = ground arith

pub sub-IsWithin :
    (n : ℕ) (d e : Decimal) → n < 2 ^ 31 → IsWithin n d → IsWithin n e → IsWithin n (sub d e)
sub-IsWithin n d e h v w =
    unfold sub in add-IsWithin n d (neg_decimal e) h v (neg_decimal-IsWithin n e w)

pub mul-IsWithin :
    (n m : ℕ) (d e : Decimal)
    → n + m < 2 ^ 31
    → IsWithin n d
    → IsWithin m e
    → IsWithin (n + m) (mul d e)
unfolding mul ◌+ℤ◌
mul-IsWithin n m d e h v w = ground arith

normalize-nonneg : (d : Decimal) → neg_part d.scale ≡ 0 → neg_part (normalize d).scale ≡ 0
unfolding normalize
normalize-nonneg d h = ground arith

pub normalize-IsWithin :
    (n : ℕ) (d : Decimal) → n < 2 ^ 31 → IsWithin n d → IsWithin n (normalize d)
normalize-IsWithin n d h v =
    let shorter = (normalize_lem (places d) d (IsWithin-IsScaled n d h v) (omega arith)).1 in
    record { nonneg = normalize-nonneg d v.nonneg; at_most = omega arith }

quo_scale-places :
    (d other r : Decimal) → quo_scale d other (pos 28) round_half_even ≡ ok r → IsWithin 28 r
unfolding quo_scale quo_rounded
quo_scale-places d other r h = ground arith

-- A quotient has at most 28 places.
pub quo-IsWithin : (d other : Decimal) {r : Decimal} → quo d other ≡ ok r → IsWithin 28 r
unfolding quo
quo-IsWithin d other h = elim (Result-cases (quo_scale d other (pos 28) round_half_even)) [
  | inl (q, e) ↦ ground (arith, normalize-IsWithin 28 q, quo_scale-places d other q)
  | inr (error, e) ↦ ground arith
]
