-- ===== src/Decimal/Normal.antt =====
-- `Normalize` keeps the value and leaves no trailing zero.
use cyp_agent.Base.{
  ℕ, zero, suc, ◌+◌, ◌-◌, ◌*◌, ◌/◌, ◌%◌, ◌^◌, ◌≤◌, ◌≡◌, ◌≢◌, ◌⊎◌, refl, ap, ◌∙◌, true, false, arith,
  ◌==◌, Bool-cases, ==_iff, inl, inr,
}
use cyp_agent.Int.{zero-*ℤ, ℤ, pos, abs, ◌*ℤ◌, *ℤ_assoc, pos-*ℤ, *ℤ_pos_one}
use cyp_agent.Decimal.{Decimal, is_zero, lt_zero, signed, zero_decimal}
use cyp_agent.Decimal.Exact.{IsScaled, places, units, pow-add}
use cyp_agent.Decimal.Quotient.{quo_ℤ, normalize_loop, normalize}
use cyp_agent.Decimal.Rounding.{signed-*ℤ, signed_self}

-- No factor of ten is left, or no place.
abbrev pub IsReduced : ℤ → ℕ → Type 0
IsReduced c s = (s ≡ 0) ⊎ (abs c % 10 ≢ 0)

drop_zero : (c : ℤ) → abs c % 10 ≡ 0 → quo_ℤ c (pos 10) *ℤ pos 10 ≡ c
drop_zero c h =
    let e : abs c / 10 * 10 ≡ abs c = omega arith in
    signed-*ℤ (lt_zero c) (abs c / 10) 10 ∙ ap (signed (lt_zero c)) e ∙ signed_self c

record Reduces (s : ℕ) (c : ℤ) (r : ℤ × ℕ) : Type 0 where
  shorter : r.1 ≤ s
  value : r.0 *ℤ pos (10 ^ (s - r.1)) ≡ c
  reduced : IsReduced r.0 r.1

step_Reduces :
    (s : ℕ) (c c' : ℤ) (r : ℤ × ℕ) → Reduces s c' r → c' *ℤ pos 10 ≡ c → Reduces (suc s) c r
step_Reduces s c c' r h e = record {
  shorter = omega arith;
  value =
      let e1 : suc s - r.1 ≡ s - r.1 + 1 = omega arith in
      rw (e1, pow-add, ← pos-*ℤ, ← *ℤ_assoc, h.value) e;
  reduced = h.reduced;
}

last_round : (s : ℕ) (c : ℤ) → c *ℤ pos (10 ^ (suc s - suc s)) ≡ c
last_round s c = let e : suc s - suc s ≡ 0 = omega arith in rw (e, *ℤ_pos_one)

normalize_loop-Reduces : (s : ℕ) (c : ℤ) → Reduces s c (normalize_loop s c)
unfolding normalize_loop
normalize_loop-Reduces zero c = record {
  shorter = omega arith;
  value = *ℤ_pos_one c;
  reduced = inl refl;
}
normalize_loop-Reduces (suc s) c = elim (Bool-cases (abs c % 10 == 0)) [
  | inl z ↦ rw z (
      step_Reduces s c (quo_ℤ c (pos 10)) (normalize_loop s (quo_ℤ c (pos 10)))
        (normalize_loop-Reduces s (quo_ℤ c (pos 10))) (drop_zero c ((==_iff _ _).0 z)))
  | inr nz ↦
      rw nz (record { shorter = omega arith; value = last_round s c; reduced = inr (ground arith) })
]

normalize_nonzero :
    (d : Decimal)
    → is_zero d ≡ false
    → let r = normalize_loop (places d) d.coefficient in
      r.1 ≤ places d → ((normalize d).coefficient ≡ r.0) × (places (normalize d) ≡ r.1)
unfolding normalize
normalize_nonzero d nz le = ground arith

normalize_zero : (d : Decimal) → is_zero d ≡ true → normalize d ≡ zero_decimal
unfolding normalize
normalize_zero d z = rw z

coefficient_zero : (c : ℤ) → (abs c == 0) ≡ true → c ≡ pos 0
coefficient_zero c z = ground arith

units_of_zero : (k : ℕ) (d : Decimal) → is_zero d ≡ true → units k zero_decimal ≡ units k d
unfolding units
units_of_zero k d z =
    let e : d.coefficient ≡ pos 0 = coefficient_zero d.coefficient z in rw (e, zero-*ℤ, zero-*ℤ)

-- For a decimal whose scale is between 0 and 2^31 - 1, the normal form has the same value in units
-- of 10^-k for every k no less than the scale, no more places, and either no places or a
-- coefficient that 10 does not divide.
pub normalize_lem :
    (k : ℕ) (d : Decimal)
    → IsScaled d
    → places d ≤ k
    → (units k (normalize d) ≡ units k d)
      × (places (normalize d) ≤ places d)
      × IsReduced (normalize d).coefficient (places (normalize d))
unfolding units
normalize_lem k d v h = elim (Bool-cases (is_zero d)) [
  | inl z ↦ rw (normalize_zero d z) (units_of_zero k d z, omega arith, inl refl)
  | inr nz ↦
      let r = normalize_loop (places d) d.coefficient in
      let red = normalize_loop-Reduces (places d) d.coefficient in
      let (c, p) = normalize_nonzero d nz red.shorter in
      let split : k - r.1 ≡ places d - r.1 + (k - places d) = omega (arith, red.shorter) in
      rw (c, p) (rw (split, pow-add, ← pos-*ℤ, ← *ℤ_assoc, red.value), red.shorter, red.reduced)
]
