-- ===== src/Decimals/Rounding.antt =====
-- Rounding to the nearest: the error is at most half a unit, and the order is kept.
use native.Mathlib.Nat.{div-add-mod, mod-lt}
use divap_trader.Base.{
  ℕ, suc, ◌+◌, ◌-◌, ◌*◌, ◌/◌, ◌%◌, ◌^◌, ◌≤◌, ◌<◌, ◌≡◌, ◌⊎◌, inl, inr, ap, true, false, arith, ltb,
  le→leb, leb→le, if◌then◌else◌, ◌==◌, Bool-cases, ltb→lt,
}
use divap_trader.Base.Int.{ℤ, pos_part, neg_part, pos, negsuc, with_abs, sub_ℕ, ◌≤ℤ◌}
use divap_trader.Decimals.Defs.{Decimal, le, half_even, quantize, is_neg}
use divap_trader.Decimals.Order.{pow-pos, mul-pos}
use divap_trader.Decimals.Products.{pow-add}

-- k is n / d to the nearest whole number, the even one on a tie.
pub record IsNearest (d n k : ℕ) : Type 0 where
  pub low : 2 * (d * k) ≤ 2 * n + d
  pub high : 2 * n ≤ 2 * (d * k) + d
  pub tie_low : 2 * (d * k) ≡ 2 * n + d → k % 2 ≡ 0
  pub tie_high : 2 * n ≡ 2 * (d * k) + d → k % 2 ≡ 0

parts-IsNearest :
    (d q r n : ℕ)
    → 0 < d
    → d * q + r ≡ n
    → r < d
    → IsNearest d n (
        if ltb (2 * r) d
        then q
        else if ltb d (2 * r)
        then q + 1
        else if q % 2 == 0
        then q
        else q + 1)
parts-IsNearest d q r n h e l = elim (Bool-cases (ltb (2 * r) d)) [
  | inl below ↦ rw below (omega (arith, ltb→lt _ _ below))
  | inr above ↦ rw above (elim (Bool-cases (ltb d (2 * r))) [
    | inl more ↦ rw more (omega (arith, ltb→lt _ _ more))
    | inr less ↦ rw less (elim (Bool-cases (q % 2 == 0)) [
      | inl even ↦ rw even (ground (arith, ties above less))
      | inr odd ↦ rw odd (ground (arith, ties above less))
    ])
  ])
]
  where
    ties : ltb (2 * r) d ≡ false → ltb d (2 * r) ≡ false → d ≡ 2 * r
    ties a b = ground arith

pub half_even-IsNearest : (d n : ℕ) → 0 < d → IsNearest d n (half_even d n)
unfolding half_even
half_even-IsNearest d n h = parts-IsNearest d (n / d) (n % d) n h (div-add-mod n d) (mod-lt n h)

le_or_lt : (a b : ℕ) → (a ≤ b) ⊎ (b < a)
le_or_lt a b = omega arith

cancel_le : (c a b : ℕ) → 0 < c → c * a ≤ c * b → a ≤ b
cancel_le c a b h m = grind arith

scale_le : (c a b : ℕ) → a ≤ b → c * a ≤ c * b
scale_le c a b m = grind arith

-- Were j below k, both quotients would lie half way between them, so both would be even.
half_way :
    (d n k e m j : ℕ)
    → 0 < d
    → 0 < e
    → 2 * (d * k) ≤ 2 * n + d
    → 2 * m ≤ 2 * (e * j) + e
    → n * e ≤ m * d
    → j < k
    → (k ≡ j + 1) × (2 * (d * k) ≡ 2 * n + d) × (2 * m ≡ 2 * (e * j) + e)
half_way d n k e m j hd he a b h lt =
    let x = scale_le e _ _ a in
    let y = scale_le d _ _ b in
    let z = scale_le (d * e) (j + 1) k (omega arith) in
    (
      omega (arith, cancel_le (d * e) k (j + 1) (mul-pos d e hd he) (omega arith)),
      omega (arith, cancel_le e (2 * n + d) (2 * (d * k)) he (omega arith)),
      omega (arith, cancel_le d (2 * (e * j) + e) (2 * m) hd (omega arith)),
    )

-- Two quotients in order have their nearest whole numbers in order.
nearest_mono :
    (d n k e m j : ℕ) → 0 < d → 0 < e → IsNearest d n k → IsNearest e m j → n * e ≤ m * d → k ≤ j
nearest_mono d n k e m j hd he a b h = elim (le_or_lt k j) [
  | inl l ↦ l
  | inr l ↦ ground (arith, half_way d n k e m j hd he a.low b.high h l)
]

pub half_even_mono : (d n e m : ℕ) → 0 < d → 0 < e → n * e ≤ m * d → half_even d n ≤ half_even e m
half_even_mono d n e m hd he h =
    nearest_mono d n _ e m _ hd he (half_even-IsNearest d n hd) (half_even-IsNearest e m he) h

negated_parts : (m : ℕ) → (pos_part (sub_ℕ 0 m) ≡ 0) × (neg_part (sub_ℕ 0 m) ≡ m)
negated_parts m = ground arith

abbrev rounded : ℕ → ℕ → ℤ → ℤ
rounded t s = with_abs (λ n. half_even (10 ^ t) (n * 10 ^ s))

rounded_mono :
    (s t u : ℕ) (x y : ℤ)
    → pos_part x * 10 ^ u + neg_part y * 10 ^ t ≤ pos_part y * 10 ^ t + neg_part x * 10 ^ u
    → rounded t s x ≤ℤ rounded u s y
rounded_mono s t u (pos n) (pos m) h = omega (
  arith,
  half_even_mono (10 ^ t) (n * 10 ^ s) (10 ^ u) (m * 10 ^ s) (pow-pos t) (pow-pos u)
      (omega (arith, scale_le (10 ^ s) _ _ h)),
)
rounded_mono s t u (pos n) (negsuc m) h =
    absurd (omega (arith, mul-pos (suc m) (10 ^ t) (omega arith) (pow-pos t)))
rounded_mono s t u (negsuc n) (pos m) h = omega (arith, negated_parts)
rounded_mono s t u (negsuc n) (negsuc m) h = omega (
  arith,
  negated_parts,
  half_even_mono (10 ^ u) (suc m * 10 ^ s) (10 ^ t) (suc n * 10 ^ s) (pow-pos u) (pow-pos t)
      (omega (arith, scale_le (10 ^ s) _ _ h)),
)

-- Rounding to s digits keeps the order of decimals, of whatever sign and scale.
pub quantize_mono :
    (s : ℕ) (a b : Decimal) → le a b ≡ true → le (quantize s a) (quantize s b) ≡ true
unfolding le quantize
quantize_mono s a b h = le→leb _ _ (
    omega
      (arith, scale_le (10 ^ s) _ _ (rounded_mono s a.scale b.scale a.num b.num (leb→le _ _ h))))

-- The rounded value of a decimal that is not negative is not negative.
pub quantize_nonneg : (s : ℕ) (a : Decimal) → is_neg a ≡ false → is_neg (quantize s a) ≡ false
unfolding quantize
quantize_nonneg s a h = ground arith

near_le : (d a b : ℕ) → 0 < d → 2 * (d * a) ≤ 2 * (d * b) + d → a ≤ b
near_le d a b h m = elim (le_or_lt a b) [
  | inl l ↦ l
  | inr l ↦ absurd (omega (arith, scale_le d (b + 1) a (omega arith)))
]

-- A whole quotient is its own nearest number.
half_even_exact : (d k : ℕ) → 0 < d → half_even d (k * d) ≡ k
half_even_exact d k h =
    let n = half_even-IsNearest d (k * d) h in
    omega (
      arith,
      near_le d (half_even d (k * d)) k h (omega (arith, n.low)),
      near_le d k (half_even d (k * d)) h (omega (arith, n.high)),
    )

pow_split : (t s : ℕ) → t ≤ s → 10 ^ s ≡ 10 ^ (s - t) * 10 ^ t
pow_split t s h = let e : s - t + t ≡ s = omega arith in rw (← pow-add (s - t) t, e)

half_even_shift : (t s n : ℕ) → t ≤ s → half_even (10 ^ t) (n * 10 ^ s) * 10 ^ t ≡ n * 10 ^ s
half_even_shift t s n h =
    let split : n * 10 ^ s ≡ n * 10 ^ (s - t) * 10 ^ t =
      omega (arith, ap (λ (k : ℕ). n * k) (pow_split t s h)) in
    rw (split, half_even_exact (10 ^ t) (n * 10 ^ (s - t)) (pow-pos t))

exact_parts :
    (t s : ℕ) (x : ℤ)
    → t ≤ s
    → (pos_part (rounded t s x) * 10 ^ t ≡ pos_part x * 10 ^ s)
      × (neg_part (rounded t s x) * 10 ^ t ≡ neg_part x * 10 ^ s)
exact_parts t s (pos n) h = (half_even_shift t s n h, omega arith)
exact_parts t s (negsuc n) h =
    let (p, q) = negated_parts (half_even (10 ^ t) (suc n * 10 ^ s)) in
    rw (p, q) (omega arith, half_even_shift t s (suc n) h)

-- With the digits at hand rounding changes the notation only.
pub quantize_exact :
    (s : ℕ) (a : Decimal)
    → a.scale ≤ s
    → (le a (quantize s a) ≡ true) × (le (quantize s a) a ≡ true)
unfolding quantize le
quantize_exact s a h =
    let (p, q) = exact_parts a.scale s a.num h in
    (le→leb _ _ (omega (arith, p, q)), le→leb _ _ (omega (arith, p, q)))
