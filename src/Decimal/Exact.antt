-- ===== src/Decimal/Exact.antt =====
-- The arithmetic of decimal.go is exact: a decimal read as a whole number of units of 10^-k.
use native.Mathlib.Nat.{pow-suc, add-zero, add-suc}
use cyp_agent.Base.{
  ℕ, zero, suc, ◌+◌, ◌-◌, ◌*◌, ◌^◌, ◌≤◌, ◌<◌, ◌≡◌, refl, sym, ap, ap₂, ◌∙◌, false, arith, ltb,
  if◌then◌else◌,
}
use cyp_agent.Int.{
  ℤ, pos, pos_part, neg_part, neg, ◌+ℤ◌, ◌-ℤ◌, ◌*ℤ◌, ltb_ℤ, wrap32, neg-*ℤ, +ℤ-neg, *ℤ_assoc,
  *ℤ_pos_one, +ℤ-*ℤ, pos-*ℤ,
}
use cyp_agent.Decimal.{Decimal, pow10, add, sub, neg_decimal, rescale, common_scale, align_decimals}

-- The scale is a natural number below 2^31.
pub record IsScaled (d : Decimal) : Type 0 where
  pub nonneg : neg_part d.scale ≡ 0
  pub bounded : pos_part d.scale < 2 ^ 31

abbrev pub places : Decimal → ℕ
places d = pos_part d.scale

-- The value in units of 10^-k, for k at least the number of places.
unfoldable pub units : ℕ → Decimal → ℤ
units k d = d.coefficient *ℤ pos (10 ^ (k - places d))

pub pow-add : (a b : ℕ) → 10 ^ (a + b) ≡ 10 ^ a * 10 ^ b
pow-add a zero = rw add-zero (omega arith)
pow-add a (suc b) =
    let e : 10 ^ suc (a + b) ≡ 10 ^ (a + b) * 10 = pow-suc 10 (a + b) in
    rw (add-suc, e, pow-suc 10 b, pow-add a b) (omega arith)

pub delta_lem : (t s : ℕ) → s ≤ t → t < 2 ^ 31 → wrap32 (pos t -ℤ pos s) ≡ pos (t - s)
unfolding ◌-ℤ◌
delta_lem t s h b = ground arith

pub scale-eq-pos : (z : ℤ) → neg_part z ≡ 0 → z ≡ pos (pos_part z)
scale-eq-pos z h = ground arith

pick_positive :
    (c : ℤ) (delta : ℕ)
    → (if ltb_ℤ (pos 0) (pos delta) then c *ℤ pos (pow10 (pos delta)) else c)
      ≡ c *ℤ pos (10 ^ delta)
pick_positive c zero = sym (*ℤ_pos_one c)
pick_positive c (suc n) = ground arith

pub rescale_lem :
    (t : ℕ) (d : Decimal) → IsScaled d → places d ≤ t → t < 2 ^ 31 → rescale (pos t) d ≡ units t d
unfolding rescale units
rescale_lem t d v h b =
    let e : wrap32 (pos t -ℤ d.scale) ≡ pos (t - places d) =
      ap (λ z. wrap32 (pos t -ℤ z)) (scale-eq-pos d.scale v.nonneg) ∙ delta_lem t (places d) h b in
    rw e (pick_positive d.coefficient (t - places d))

-- A value in finer units is the value in coarser ones times a power of ten.
pub units-add : (k j : ℕ) (d : Decimal) → places d ≤ k → units (k + j) d ≡ units k d *ℤ pos (10 ^ j)
unfolding units
units-add k j d h =
    let e : k + j - places d ≡ k - places d + j = omega arith in rw (e, pow-add, *ℤ_assoc, pos-*ℤ)

-- The larger of the two scales.
abbrev pub max_places : Decimal → Decimal → ℕ
max_places d e = if ltb (places d) (places e) then places e else places d

pub common_scale_lem :
    (d e : Decimal) → IsScaled d → IsScaled e → common_scale d e ≡ pos (max_places d e)
unfolding common_scale
common_scale_lem d e v w = ground (arith, scale-eq-pos d.scale, scale-eq-pos e.scale)

pub max_places_bound :
    (d e : Decimal)
    → IsScaled d
    → IsScaled e
    → (places d ≤ max_places d e) × (places e ≤ max_places d e) × (max_places d e < 2 ^ 31)
max_places_bound d e v w = ground arith

pub align_decimals_lem :
    (d e : Decimal)
    → IsScaled d
    → IsScaled e
    → align_decimals d e
      ≡ (units (max_places d e) d, units (max_places d e) e, pos (max_places d e))
unfolding align_decimals
align_decimals_lem d e v w =
    let (p, q, b) = max_places_bound d e v w in
    rw (
      common_scale_lem d e v w,
      rescale_lem (max_places d e) d v p b,
      rescale_lem (max_places d e) e w q b,
    )

abbrev pub with_scale : ℤ × ℤ × ℤ → Decimal
with_scale (a, b, t) = record { coefficient = a +ℤ b; scale = t; negative_zero = false }

pub add_lem :
    (d e : Decimal)
    → IsScaled d
    → IsScaled e
    → add d e
      ≡ with_scale (units (max_places d e) d, units (max_places d e) e, pos (max_places d e))
unfolding add
add_lem d e v w = ap with_scale (align_decimals_lem d e v w)

pub add-IsScaled : (d e : Decimal) → IsScaled d → IsScaled e → IsScaled (add d e)
add-IsScaled d e v w =
    let (p, q, b) = max_places_bound d e v w in
    rw (add_lem d e v w) (record { nonneg = refl; bounded = b })

units_at_max :
    (k t : ℕ) (a b : ℤ) → units k (with_scale (a, b, pos t)) ≡ (a +ℤ b) *ℤ pos (10 ^ (k - t))
unfolding units
units_at_max k t a b = refl

pub units_split :
    (k t : ℕ) (d : Decimal) → places d ≤ t → t ≤ k → units t d *ℤ pos (10 ^ (k - t)) ≡ units k d
units_split k t d p h =
    let e : t + (k - t) ≡ k = omega arith in sym (units-add t (k - t) d p) ∙ ap (λ z. units z d) e

-- For decimals whose scale is between 0 and 2^31 - 1, the value of a sum is the sum of the values,
-- counted in units of 10^-k for every k that is no less than the scale of either operand.
pub units-add_decimal :
    (k : ℕ) (d e : Decimal)
    → IsScaled d
    → IsScaled e
    → places d ≤ k
    → places e ≤ k
    → units k (add d e) ≡ units k d +ℤ units k e
units-add_decimal k d e v w p q =
    let t = max_places d e in
    let (pd, pe, b) = max_places_bound d e v w in
    let h : t ≤ k = ground arith in
    ap (units k) (add_lem d e v w)
    ∙ units_at_max k t (units t d) (units t e)
    ∙ +ℤ-*ℤ (units t d) (units t e) (10 ^ (k - t))
    ∙ ap₂ ◌+ℤ◌ (units_split k t d pd h) (units_split k t e pe h)

pub neg_decimal-IsScaled : (d : Decimal) → IsScaled d → IsScaled (neg_decimal d)
unfolding neg_decimal
neg_decimal-IsScaled d v = ground arith

neg_decimal_lem :
    (d : Decimal)
    → ((neg_decimal d).coefficient ≡ neg d.coefficient) × ((neg_decimal d).scale ≡ d.scale)
unfolding neg_decimal neg
neg_decimal_lem d = ground arith

pub units-neg_decimal : (k : ℕ) (d : Decimal) → units k (neg_decimal d) ≡ neg (units k d)
unfolding units
units-neg_decimal k d =
    let (c, s) = neg_decimal_lem d in rw (c, s) (neg-*ℤ d.coefficient (pos (10 ^ (k - places d))))

-- For decimals whose scale is between 0 and 2^31 - 1, the value of a difference is the difference
-- of the values, counted in units of 10^-k for every k that is no less than the scale of either
-- operand.
pub units-sub :
    (k : ℕ) (d e : Decimal)
    → IsScaled d
    → IsScaled e
    → places d ≤ k
    → places e ≤ k
    → units k (sub d e) ≡ units k d -ℤ units k e
unfolding sub
units-sub k d e v w p q =
    let h : places (neg_decimal e) ≤ k = rw (neg_decimal_lem e).1 q in
    unfold add align_decimals in
    units-add_decimal k d (neg_decimal e) v (neg_decimal-IsScaled e w) p h
    ∙ ap (λ z. units k d +ℤ z) (units-neg_decimal k e)
    ∙ +ℤ-neg (units k d) (units k e)
