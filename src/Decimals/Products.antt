-- ===== src/Decimals/Products.antt =====
-- Products and powers of decimals keep the order.
use native.Mathlib.Nat.{pow-suc, zero-add, suc-add, pow-zero}
use divap_trader.Base.{
  ℕ, zero, suc, ◌+◌, ◌*◌, ◌^◌, ◌≤◌, ◌≡◌, refl, true, false, arith, le→leb, leb→le,
}
use divap_trader.Base.Int.{ℤ, pos_part, neg_part, pos, negsuc, ◌*ℤ◌}
use divap_trader.Decimals.Defs.{Decimal, le, ◌⊗◌, power, whole, is_neg}
use divap_trader.Decimals.Order.{pow-pos, le_refl, le_trans}

pub pow-add : (m n : ℕ) → 10 ^ (m + n) ≡ 10 ^ m * 10 ^ n
pow-add zero n = simp (zero-add, pow-zero) (omega arith)
pow-add (suc m) n = simp (suc-add, pow-suc, pow-add m n) (omega arith)

pub pos-*ℤ_parts :
    (n : ℕ) (b : ℤ)
    → (pos_part (pos n *ℤ b) ≡ n * pos_part b) × (neg_part (pos n *ℤ b) ≡ n * neg_part b)
unfolding ◌*ℤ◌
pos-*ℤ_parts n (pos m) = ground arith
pos-*ℤ_parts n (negsuc m) = ground arith

scale_le : (c a b : ℕ) → a ≤ b → c * a ≤ c * b
scale_le c a b m = grind arith

nonneg_num : (a : Decimal) → is_neg a ≡ false → a.num ≡ pos (pos_part a.num)
nonneg_num a h = ground arith

-- With n the first factor's coefficient, t its power, and u, v the powers of the others.
product_mono :
    (n t u v : ℕ) (x y : ℤ)
    → pos_part x * v + neg_part y * u ≤ pos_part y * u + neg_part x * v
    → pos_part (pos n *ℤ x) * (t * v) + neg_part (pos n *ℤ y) * (t * u)
      ≤ pos_part (pos n *ℤ y) * (t * u) + neg_part (pos n *ℤ x) * (t * v)
product_mono n t u v x y h =
    rw ((pos-*ℤ_parts n x).0, (pos-*ℤ_parts n x).1, (pos-*ℤ_parts n y).0, (pos-*ℤ_parts n y).1)
      (omega (arith, scale_le (n * t) _ _ h))

-- A product by a value that is not negative keeps the order.
pub ⊗_mono_right : (a b c : Decimal) → is_neg a ≡ false → le b c ≡ true → le (a ⊗ b) (a ⊗ c) ≡ true
unfolding le ◌⊗◌
⊗_mono_right a b c n h =
    rw (nonneg_num a n, pow-add a.scale c.scale, pow-add a.scale b.scale)
      (le→leb _ _ (
        product_mono (pos_part a.num) (10 ^ a.scale) (10 ^ b.scale) (10 ^ c.scale) b.num c.num
          (leb→le _ _ h)))

at_least_one :
    (a : Decimal) → le (whole 1) a ≡ true → (is_neg a ≡ false) × (10 ^ a.scale ≤ pos_part a.num)
unfolding le
at_least_one a h = ground (arith, pow-pos a.scale)

⊗_nonneg : (a b : Decimal) → is_neg a ≡ false → is_neg b ≡ false → is_neg (a ⊗ b) ≡ false
unfolding ◌⊗◌ ◌*ℤ◌
⊗_nonneg a b p q = rw (nonneg_num a p, nonneg_num b q) (ground arith)

grown : (k m t u : ℕ) → t ≤ k → m * (t * u) ≤ k * m * u
grown k m t u h = omega (arith, scale_le (m * u) t k h)

-- A factor of at least 1 does not make a value that is not negative smaller.
pub ⊗_grows : (a b : Decimal) → is_neg b ≡ false → le (whole 1) a ≡ true → le b (a ⊗ b) ≡ true
unfolding le ◌⊗◌
⊗_grows a b n h =
    let (p, q) = at_least_one a h in
    rw (nonneg_num a p, pow-add a.scale b.scale)
      (rw
        (
          (pos-*ℤ_parts (pos_part a.num) b.num).0,
          (pos-*ℤ_parts (pos_part a.num) b.num).1,
          nonneg_num b n,
        )
        (le→leb _ _
          (omega (arith, grown (pos_part a.num) (pos_part b.num) (10 ^ a.scale) (10 ^ b.scale) q))))

power_nonneg : (m : Decimal) (n : ℕ) → le (whole 1) m ≡ true → is_neg (power m n) ≡ false
unfolding power
power_nonneg m zero h = refl
power_nonneg m (suc n) h = ⊗_nonneg m (power m n) (at_least_one m h).0 (power_nonneg m n h)

-- The powers of a value of at least 1 do not fall.
pub power_mono :
    (m : Decimal) (i d : ℕ) → le (whole 1) m ≡ true → le (power m i) (power m (d + i)) ≡ true
unfolding power
power_mono m i zero h = rw zero-add (le_refl _)
power_mono m i (suc d) h =
    rw suc-add (
      le_trans _ _ _ (power_mono m i d h)
        (⊗_grows m (power m (d + i)) (power_nonneg m (d + i) h) h))

⊗-one : (x : Decimal) → is_neg x ≡ false → le x (x ⊗ whole 1) ≡ true
unfolding le ◌⊗◌
⊗-one x p =
    rw (nonneg_num x p, pow-add x.scale 0)
      (rw ((pos-*ℤ_parts (pos_part x.num) (pos 1)).0, (pos-*ℤ_parts (pos_part x.num) (pos 1)).1)
        (le→leb _ _ (omega arith)))

-- a <= a * b where b is at least 1.
pub ⊗_grows_left : (a b : Decimal) → is_neg a ≡ false → le (whole 1) b ≡ true → le a (a ⊗ b) ≡ true
⊗_grows_left a b n h = le_trans _ _ _ (⊗-one a n) (⊗_mono_right a (whole 1) b n h)

pub power-ge-one : (m : Decimal) (n : ℕ) → le (whole 1) m ≡ true → le (whole 1) (power m n) ≡ true
unfolding power
power-ge-one m zero h = le_refl _
power-ge-one m (suc n) h =
    le_trans _ _ _ (power-ge-one m n h) (⊗_grows m (power m n) (power_nonneg m n h) h)
