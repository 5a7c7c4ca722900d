-- ===== src/Decimal/Compare.antt =====
-- Products and comparisons of decimal.go agree with those of the values.
use native.Mathlib.Nat.{one-le-pow}
use cyp_agent.Base.{
  ℕ, ◌+◌, ◌-◌, ◌*◌, ◌^◌, ◌≤◌, ◌<◌, ◌≡◌, ◌↔◌, refl, sym, ap, ap₂, ◌∙◌, arith, ltb, dec_lt,
}
use cyp_agent.Int.{
  ℤ, pos, negsuc, pos_part, neg_part, ◌+ℤ◌, ◌*ℤ◌, ◌<ℤ◌, ltb_ℤ, product_parts, pos-*ℤ, eq_of_parts,
}
use cyp_agent.Decimal.{Decimal, mul, cmp, cmp_ℤ}
use cyp_agent.Decimal.Exact.{
  IsScaled, places, units, pow-add, max_places, max_places_bound, align_decimals_lem, units_split,
}

regroup : (a b : ℤ) (m n : ℕ) → a *ℤ b *ℤ (pos m *ℤ pos n) ≡ a *ℤ pos m *ℤ (b *ℤ pos n)
regroup a b m n = eq_of_parts _ _ (simp product_parts (omega arith))

mul_scale_lem :
    (d e : Decimal)
    → IsScaled d
    → IsScaled e
    → places d + places e < 2 ^ 31
    → (mul d e).scale ≡ pos (places d + places e)
unfolding mul ◌+ℤ◌
mul_scale_lem d e v w h = ground arith

-- For decimals whose scales are not negative and add up to less than 2^31, the value of a product
-- is the product of the values: in units of 10^-(k + j) that of the one in units of 10^-k with
-- that of the other in units of 10^-j, for k and j no less than their scales.
units-mul :
    (k j : ℕ) (d e : Decimal)
    → IsScaled d
    → IsScaled e
    → places d ≤ k
    → places e ≤ j
    → places d + places e < 2 ^ 31
    → units (k + j) (mul d e) ≡ units k d *ℤ units j e
unfolding units
units-mul k j d e v w p q h =
    let s : k + j - (places d + places e) ≡ k - places d + (j - places e) = omega arith in
    rw (mul_scale_lem d e v w h, s, pow-add (k - places d) (j - places e), ← pos-*ℤ)
      (unfold mul in
        regroup d.coefficient e.coefficient (10 ^ (k - places d)) (10 ^ (j - places e)))

pub mul-IsScaled :
    (d e : Decimal) → IsScaled d → IsScaled e → places d + places e < 2 ^ 31 → IsScaled (mul d e)
mul-IsScaled d e v w h = rw (mul_scale_lem d e v w h) (record { nonneg = refl; bounded = h })

pub ltb-mul : (x y m : ℕ) → 0 < m → ltb (x * m) (y * m) ≡ ltb x y
ltb-mul x y m h = elim (dec_lt x y) [
  | yes p ↦ let q : x * m < y * m = grind arith in ground arith
  | no p ↦ let q : y * m ≤ x * m = grind arith in ground arith
]

scaled_sum :
    (a b : ℤ) (m : ℕ)
    → pos_part (a *ℤ pos m) + neg_part (b *ℤ pos m) ≡ (pos_part a + neg_part b) * m
scaled_sum a b m = simp product_parts (omega arith)

ltb_ℤ-mul : (a b : ℤ) (m : ℕ) → 0 < m → ltb_ℤ (a *ℤ pos m) (b *ℤ pos m) ≡ ltb_ℤ a b
ltb_ℤ-mul a b m h =
    ap₂ ltb (scaled_sum a b m) (scaled_sum b a m)
    ∙ ltb-mul (pos_part a + neg_part b) (pos_part b + neg_part a) m h

pub cmp_ℤ_scaled : (a b : ℤ) (m : ℕ) → 0 < m → cmp_ℤ (a *ℤ pos m) (b *ℤ pos m) ≡ cmp_ℤ a b
unfolding cmp_ℤ
cmp_ℤ_scaled a b m h = rw (ltb_ℤ-mul a b m h, ltb_ℤ-mul b a m h)

pub pow_pos : (n : ℕ) → 0 < 10 ^ n
pow_pos n = one-le-pow n 10 (omega arith)

-- For decimals whose scale is between 0 and 2^31 - 1, a comparison is that of the values in units
-- of 10^-k, for every k that is no less than either scale.
pub cmp-units :
    (k : ℕ) (d e : Decimal)
    → IsScaled d
    → IsScaled e
    → places d ≤ k
    → places e ≤ k
    → cmp d e ≡ cmp_ℤ (units k d) (units k e)
unfolding cmp
cmp-units k d e v w p q =
    let t = max_places d e in
    let (pd, pe, b) = max_places_bound d e v w in
    let h : t ≤ k = ground arith in
    ap (λ r. cmp_ℤ r.0 r.1) (align_decimals_lem d e v w)
    ∙ sym (cmp_ℤ_scaled (units t d) (units t e) (10 ^ (k - t)) (pow_pos (k - t)))
    ∙ ap₂ cmp_ℤ (units_split k t d pd h) (units_split k t e pe h)

-- What the three outcomes of a comparison say.
pub cmp_ℤ_lt : (a b : ℤ) → (cmp_ℤ a b ≡ negsuc 0) ↔ (a <ℤ b)
unfolding cmp_ℤ
cmp_ℤ_lt a b = ground arith

pub cmp_ℤ_gt : (a b : ℤ) → (cmp_ℤ a b ≡ pos 1) ↔ (b <ℤ a)
unfolding cmp_ℤ
cmp_ℤ_gt a b = ground arith

pub cmp_ℤ_eq : (a b : ℤ) → (cmp_ℤ a b ≡ pos 0) ↔ (a ≡ b)
unfolding cmp_ℤ
cmp_ℤ_eq a b = ground arith
