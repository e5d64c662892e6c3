-- ===== src/Decimals/Order.antt =====
-- The order of decimals: comparisons agree with the values, whatever the scales.
use native.Mathlib.Nat.{pow-suc, zero-mul as zero_mul}
use divap_trader.Base.{
  ℕ, zero, suc, ◌+◌, ◌*◌, ◌^◌, ◌≤◌, ◌<◌, ◌≡◌, true, false, arith, le→leb, leb→le,
}
use divap_trader.Base.Int.{pos_part, neg_part, ◌*ℤ◌, ◌-ℤ◌}
use divap_trader.Decimals.Defs.{
  Decimal, lt, le, is_pos, is_neg, minimum, maximum, ◌⊗◌, negate, hundredth, abs,
}

pub pow-pos : (n : ℕ) → 0 < 10 ^ n
pow-pos zero = omega arith
pow-pos (suc n) = rw pow-suc (omega (arith, pow-pos n))

-- Two numbers compare as their multiples by a positive number.
le_of_mul : (k a b : ℕ) → 0 < k → a * k ≤ b * k → a ≤ b
le_of_mul k a b h m = grind arith

mul_le : (k a b : ℕ) → a ≤ b → a * k ≤ b * k
mul_le k a b h = grind arith

-- With p, n the parts and t, u, v the powers of the scales.
le_trans_parts :
    (ap an bp bn cp cn t u v : ℕ)
    → 0 < u
    → ap * u + bn * t ≤ bp * t + an * u
    → bp * v + cn * u ≤ cp * u + bn * v
    → ap * v + cn * t ≤ cp * t + an * v
le_trans_parts ap an bp bn cp cn t u v h p q =
    le_of_mul u (ap * v + cn * t) (cp * t + an * v) h
      (omega (arith, mul_le v _ _ p, mul_le t _ _ q))

pub le_refl : (a : Decimal) → le a a ≡ true
unfolding le
le_refl a = le→leb _ _ (omega arith)

pub le_trans : (a b c : Decimal) → le a b ≡ true → le b c ≡ true → le a c ≡ true
unfolding le
le_trans a b c p q = le→leb _ _ (
    le_trans_parts (pos_part a.num) (neg_part a.num) (pos_part b.num) (neg_part b.num)
      (pos_part c.num) (neg_part c.num) (10 ^ a.scale) (10 ^ b.scale) (10 ^ c.scale)
      (pow-pos b.scale) (leb→le _ _ p) (leb→le _ _ q))

pub le_of_lt : (a b : Decimal) → lt a b ≡ true → le a b ≡ true
unfolding lt le
le_of_lt a b h = ground arith

pub le_of_not_lt : (a b : Decimal) → lt a b ≡ false → le b a ≡ true
unfolding lt le
le_of_not_lt a b h = ground arith

pub not_lt_of_le : (a b : Decimal) → le b a ≡ true → lt a b ≡ false
unfolding lt le
not_lt_of_le a b h = ground arith

pub minimum-le_left : (a b : Decimal) → le (minimum a b) a ≡ true
unfolding minimum
minimum-le_left a b = ground (arith, le_of_lt b a, le_refl a)

pub minimum-le_right : (a b : Decimal) → le (minimum a b) b ≡ true
unfolding minimum
minimum-le_right a b = ground (arith, le_of_not_lt b a, le_refl b)

pub maximum-ge_left : (a b : Decimal) → le a (maximum a b) ≡ true
unfolding maximum
maximum-ge_left a b = ground (arith, le_of_lt a b, le_refl a)

pub maximum-ge_right : (a b : Decimal) → le b (maximum a b) ≡ true
unfolding maximum
maximum-ge_right a b = ground (arith, le_of_not_lt a b, le_refl b)

pub maximum_least : (a b c : Decimal) → le a c ≡ true → le b c ≡ true → le (maximum a b) c ≡ true
unfolding maximum
maximum_least a b c p q = ground arith

-- What is at least a positive value is positive; what is at most the opposite of one is negative.
pub mul-pos : (a b : ℕ) → 0 < a → 0 < b → 0 < a * b
mul-pos a b p q = grind arith

pos_of_parts : (ap bp t u : ℕ) → 0 < u → 0 < ap → ap * u ≤ bp * t → 0 < bp
pos_of_parts ap zero t u h p q = absurd (omega (arith, mul-pos ap u p h, zero_mul t))
pos_of_parts ap (suc bp) t u h p q = omega arith

pub pos_of_le : (a b : Decimal) → is_pos a ≡ true → le a b ≡ true → is_pos b ≡ true
unfolding le
pos_of_le a b p h = ground (
  arith,
  pow-pos b.scale,
  pos_of_parts (pos_part a.num) (pos_part b.num) (10 ^ a.scale) (10 ^ b.scale),
)

pub neg_of_le-negate : (a b : Decimal) → is_pos a ≡ true → le b (negate a) ≡ true → is_neg b ≡ true
unfolding le negate ◌-ℤ◌
neg_of_le-negate a b p h = ground (
  arith,
  pow-pos b.scale,
  pos_of_parts (pos_part a.num) (neg_part b.num) (10 ^ a.scale) (10 ^ b.scale),
)

pub ⊗-pos : (a b : Decimal) → is_pos a ≡ true → is_pos b ≡ true → is_pos (a ⊗ b) ≡ true
unfolding ◌⊗◌ ◌*ℤ◌
⊗-pos a b p q = ground (arith, mul-pos (pos_part a.num) (pos_part b.num))

pub hundredth-pos : (a : Decimal) → is_pos a ≡ true → is_pos (hundredth a) ≡ true
unfolding hundredth
hundredth-pos a p = p

pub abs_of_pos : (a : Decimal) → is_pos a ≡ true → abs a ≡ a
unfolding abs
abs_of_pos a p = ground arith

pub not_neg_of_pos : (a : Decimal) → is_pos a ≡ true → is_neg a ≡ false
not_neg_of_pos a p = ground arith
