-- ===== src/Int.antt =====
-- Integers over the native numbers: Go's `big.Int`, and its machine integers before they wrap.
use cyp_agent.Base.{
  ℕ, zero, suc, ◌+◌, ◌-◌, ◌*◌, ◌%◌, ◌^◌, ◌≤◌, ◌<◌, ◌≡◌, refl, ◌⊎◌, inl, inr, Bool, arith, ltb, leb,
  ◌==◌, if◌then◌else◌, ap,
}

-- `negsuc n` is -(n + 1).
pub data ℤ : Type 0 where
  pos : ℕ → ℤ
  negsuc : ℕ → ℤ

abbrev pub pos_part : ℤ → ℕ
pos_part (pos n) = n
pos_part (negsuc n) = 0

abbrev pub neg_part : ℤ → ℕ
neg_part (pos n) = 0
neg_part (negsuc n) = suc n

-- a - b, as an integer.
abbrev pub sub_ℕ : ℕ → ℕ → ℤ
sub_ℕ a b = if leb b a then pos (a - b) else negsuc (b - a - 1)

infixl 65 ◌+ℤ◌ ◌-ℤ◌
infixl 70 ◌*ℤ◌
infix 50 ◌≤ℤ◌ ◌<ℤ◌
unfoldable pub ◌+ℤ◌ : ℤ → ℤ → ℤ
a +ℤ b = sub_ℕ (pos_part a + pos_part b) (neg_part a + neg_part b)

unfoldable pub ◌-ℤ◌ : ℤ → ℤ → ℤ
a -ℤ b = sub_ℕ (pos_part a + neg_part b) (neg_part a + pos_part b)

unfoldable pub neg : ℤ → ℤ
neg a = sub_ℕ (neg_part a) (pos_part a)

unfoldable pub ◌*ℤ◌ : ℤ → ℤ → ℤ
a *ℤ b =
    sub_ℕ (pos_part a * pos_part b + neg_part a * neg_part b)
      (pos_part a * neg_part b + neg_part a * pos_part b)

-- The magnitude, `big.Int.Abs`.
abbrev pub abs : ℤ → ℕ
abs (pos n) = n
abs (negsuc n) = suc n

abbrev pub ◌≤ℤ◌ : ℤ → ℤ → Type 0
a ≤ℤ b = pos_part a + neg_part b ≤ pos_part b + neg_part a

abbrev pub ◌<ℤ◌ : ℤ → ℤ → Type 0
a <ℤ b = pos_part a + neg_part b < pos_part b + neg_part a

abbrev pub ltb_ℤ : ℤ → ℤ → Bool
ltb_ℤ a b = ltb (pos_part a + neg_part b) (pos_part b + neg_part a)

abbrev pub leb_ℤ : ℤ → ℤ → Bool
leb_ℤ a b = leb (pos_part a + neg_part b) (pos_part b + neg_part a)

pub +ℤ_parts :
    (a b : ℤ)
    → pos_part (a +ℤ b) + neg_part a + neg_part b ≡ neg_part (a +ℤ b) + pos_part a + pos_part b
unfolding ◌+ℤ◌
+ℤ_parts a b = ground arith

pub -ℤ_parts :
    (a b : ℤ)
    → pos_part (a -ℤ b) + neg_part a + pos_part b ≡ neg_part (a -ℤ b) + pos_part a + neg_part b
unfolding ◌-ℤ◌
-ℤ_parts a b = ground arith

pub pos_part-neg : (a : ℤ) → pos_part (neg a) ≡ neg_part a
unfolding neg
pos_part-neg a = ground arith

pub neg_part-neg : (a : ℤ) → neg_part (neg a) ≡ pos_part a
unfolding neg
neg_part-neg a = ground arith

pub eq_of_parts : (a b : ℤ) → pos_part a + neg_part b ≡ pos_part b + neg_part a → a ≡ b
eq_of_parts a b h = ground arith

-- The parts of a product are exact: one part of each factor is 0.
pub *ℤ_pos_part : (a b : ℤ) → pos_part (a *ℤ b) ≡ pos_part a * pos_part b + neg_part a * neg_part b
unfolding ◌*ℤ◌
*ℤ_pos_part (pos a) (pos b) = ground arith
*ℤ_pos_part (pos a) (negsuc b) = ground arith
*ℤ_pos_part (negsuc a) (pos b) = ground arith
*ℤ_pos_part (negsuc a) (negsuc b) = ground arith

pub *ℤ_neg_part : (a b : ℤ) → neg_part (a *ℤ b) ≡ pos_part a * neg_part b + neg_part a * pos_part b
unfolding ◌*ℤ◌
*ℤ_neg_part (pos a) (pos b) = ground arith
*ℤ_neg_part (pos a) (negsuc b) = ground arith
*ℤ_neg_part (negsuc a) (pos b) = ground arith
*ℤ_neg_part (negsuc a) (negsuc b) = ground arith

pub abs_parts : (a : ℤ) → abs a ≡ pos_part a + neg_part a
abs_parts (pos n) = omega arith
abs_parts (negsuc n) = omega arith

pub ruleset int_laws = (
  arith, abs_parts, +ℤ_parts, -ℤ_parts, pos_part-neg, neg_part-neg, *ℤ_pos_part, *ℤ_neg_part,
  eq_of_parts,
)

pub +ℤ_comm : (a b : ℤ) → a +ℤ b ≡ b +ℤ a
+ℤ_comm a b = omega int_laws

pub +ℤ_assoc : (a b c : ℤ) → a +ℤ b +ℤ c ≡ a +ℤ (b +ℤ c)
+ℤ_assoc a b c = omega int_laws

pub *ℤ_comm : (a b : ℤ) → a *ℤ b ≡ b *ℤ a
*ℤ_comm a b = omega int_laws

pub *ℤ_assoc : (a b c : ℤ) → a *ℤ b *ℤ c ≡ a *ℤ (b *ℤ c)
*ℤ_assoc a b c = eq_of_parts _ _ (simp (*ℤ_pos_part, *ℤ_neg_part) (omega arith))

pub *ℤ_pos_one : (a : ℤ) → a *ℤ pos 1 ≡ a
*ℤ_pos_one a = omega int_laws

-- A multiple of a sum, by a natural number.
pub +ℤ-*ℤ : (a b : ℤ) (k : ℕ) → (a +ℤ b) *ℤ pos k ≡ a *ℤ pos k +ℤ b *ℤ pos k
+ℤ-*ℤ a b k = omega (int_laws, ap (λ (t : ℕ). t * k) (+ℤ_parts a b))

pub pos-*ℤ : (a b : ℕ) → pos a *ℤ pos b ≡ pos (a * b)
pos-*ℤ a b = omega int_laws

pub ruleset product_parts = (*ℤ_pos_part, *ℤ_neg_part, pos_part-neg, neg_part-neg)

pub neg-*ℤ : (a b : ℤ) → neg a *ℤ b ≡ neg (a *ℤ b)
neg-*ℤ a b = eq_of_parts _ _ (simp product_parts (omega arith))

pub +ℤ-neg : (a b : ℤ) → a +ℤ neg b ≡ a -ℤ b
+ℤ-neg a b = omega int_laws

pub abs-neg : (a : ℤ) → abs (neg a) ≡ abs a
unfolding neg
abs-neg a = ground arith

pub abs-*ℤ : (a : ℤ) (k : ℕ) → abs (a *ℤ pos k) ≡ abs a * k
abs-*ℤ a k = omega (arith, abs_parts, *ℤ_pos_part, *ℤ_neg_part, ap (λ (t : ℕ). t * k) (abs_parts a))

-- `int32(x)`: the value of the low 32 bits in two's complement.
abbrev pub wrap32 : ℤ → ℤ
wrap32 (pos n) = let m = n % 2 ^ 32 in if ltb m (2 ^ 31) then pos m else negsuc (2 ^ 32 - 1 - m)
wrap32 (negsuc n) = let m = n % 2 ^ 32 in if ltb m (2 ^ 31) then negsuc m else pos (2 ^ 32 - 1 - m)

pub zero-*ℤ : (b : ℤ) → pos 0 *ℤ b ≡ pos 0
zero-*ℤ b = omega int_laws
