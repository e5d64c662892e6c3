-- ===== src/Decimals/Defs.antt =====
-- The operations of decimal.Decimal on exact coefficients.
use divap_trader.Base.{
  ℕ, zero, suc, ◌+◌, ◌-◌, ◌*◌, ◌/◌, ◌%◌, ◌^◌, Bool, true, false, List, [], ◌∷◌, ltb, leb, ◌==◌,
  ◌&&◌, if◌then◌else◌, not,
}
use Prim.Native.Nat.{max}
use divap_trader.Base.Int.{ℤ, pos, negsuc, pos_part, neg_part, ◌+ℤ◌, ◌-ℤ◌, ◌*ℤ◌, times, with_abs}

pub record Decimal : Type 0 where
  pub num : ℤ
  pub scale : ℕ

-- `Decimal("n")` for a whole number.
abbrev pub whole : ℕ → Decimal
whole n = record { num = pos n; scale = 0 }

-- `Decimal("0.01" * n)` written with `s` digits after the point.
abbrev pub fixed : ℕ → ℕ → Decimal
fixed n s = record { num = pos n; scale = s }

-- The coefficient of a value written with `t` digits after the point, where t is at least its scale.
unfoldable pub aligned : ℕ → Decimal → ℤ
unfolding times
aligned t a = times (10 ^ (t - a.scale)) a.num

infixl 65 ◌⊕◌ ◌⊖◌
infixl 70 ◌⊗◌
unfoldable pub ◌⊕◌ : Decimal → Decimal → Decimal
unfolding aligned ◌+ℤ◌
a ⊕ b = let t = max a.scale b.scale in record { num = aligned t a +ℤ aligned t b; scale = t }

unfoldable pub ◌⊖◌ : Decimal → Decimal → Decimal
unfolding aligned ◌-ℤ◌
a ⊖ b = let t = max a.scale b.scale in record { num = aligned t a -ℤ aligned t b; scale = t }

unfoldable pub ◌⊗◌ : Decimal → Decimal → Decimal
unfolding ◌*ℤ◌
a ⊗ b = record { num = a.num *ℤ b.num; scale = a.scale + b.scale }

unfoldable pub negate : Decimal → Decimal
unfolding ◌-ℤ◌
negate a = record a { num = pos 0 -ℤ a.num }

unfoldable pub abs : Decimal → Decimal
abs a = record a { num = pos (pos_part a.num + neg_part a.num) }

-- x / Decimal("100"), which shifts the point.
unfoldable pub hundredth : Decimal → Decimal
hundredth a = record a { scale = a.scale + 2 }

-- `base ** n`, for n from 0 up.
unfoldable pub power : Decimal → ℕ → Decimal
unfolding ◌⊗◌
power a zero = whole 1
power a (suc n) = a ⊗ power a n

-- sum(xs, Decimal("0"))
unfoldable pub sum_from : Decimal → List Decimal → Decimal
unfolding ◌⊕◌
sum_from acc [] = acc
sum_from acc (x ∷ xs) = sum_from (acc ⊕ x) xs

unfoldable pub sum : List Decimal → Decimal
unfolding sum_from
sum = sum_from (whole 0)

-- Comparisons multiply both coefficients to a common scale.
unfoldable pub lt : Decimal → Decimal → Bool
lt a b =
    ltb (pos_part a.num * 10 ^ b.scale + neg_part b.num * 10 ^ a.scale)
      (pos_part b.num * 10 ^ a.scale + neg_part a.num * 10 ^ b.scale)

unfoldable pub le : Decimal → Decimal → Bool
le a b =
    leb (pos_part a.num * 10 ^ b.scale + neg_part b.num * 10 ^ a.scale)
      (pos_part b.num * 10 ^ a.scale + neg_part a.num * 10 ^ b.scale)

-- x > 0, x < 0 and x == 0 turn on the coefficient alone; `if x` is x != 0.
abbrev pub is_pos : Decimal → Bool
is_pos a = ltb 0 (pos_part a.num)

abbrev pub is_neg : Decimal → Bool
is_neg a = ltb 0 (neg_part a.num)

abbrev pub is_zero : Decimal → Bool
is_zero a = pos_part a.num == 0 && neg_part a.num == 0

abbrev pub is_truthy : Decimal → Bool
is_truthy a = not (is_zero a)

-- Python's `min` and `max` keep their first argument on a tie.
unfoldable pub minimum : Decimal → Decimal → Decimal
minimum a b = if lt b a then b else a

unfoldable pub maximum : Decimal → Decimal → Decimal
maximum a b = if lt a b then b else a

-- n / d to a whole number: half to even, down, and up (away from zero).
unfoldable pub half_even : ℕ → ℕ → ℕ
half_even d n =
    let q = n / d in
    let r = n % d in
    if ltb (2 * r) d then q else if ltb d (2 * r) then q + 1 else if q % 2 == 0 then q else q + 1

unfoldable pub round_down : ℕ → ℕ → ℕ
round_down d n = n / d

unfoldable pub round_up : ℕ → ℕ → ℕ
round_up d n = if n % d == 0 then n / d else n / d + 1

-- `x.quantize(...)` to `s` digits, by a rounding of the absolute value.
unfoldable pub quantize_by : (ℕ → ℕ → ℕ) → ℕ → Decimal → Decimal
quantize_by round s a = record {
  num = with_abs (λ n. round (10 ^ a.scale) (n * 10 ^ s)) a.num;
  scale = s;
}

unfoldable pub quantize : ℕ → Decimal → Decimal
unfolding quantize_by half_even
quantize = quantize_by half_even

-- `.quantize(Decimal("0.01"))`
abbrev pub to_cents : Decimal → Decimal
to_cents = quantize 2

-- The number of decimal digits; the fuel is the number itself.
digits : ℕ → ℕ → ℕ
digits zero n = 1
digits (suc f) n = elim (ltb n 10) [ true ↦ 1 | false ↦ suc (digits f (n / 10)) ]

-- a / b, rounded half to even to 28 digits; callers test that b is not 0.
unfoldable pub quotient : Decimal → Decimal → Decimal
unfolding digits half_even ◌*ℤ◌
quotient a b =
    let n = (pos_part a.num + neg_part a.num) * 10 ^ b.scale in
    let d = (pos_part b.num + neg_part b.num) * 10 ^ a.scale in
    let shift = 28 + digits d d - digits n n in
    let m = n * 10 ^ shift in
    let exact = m / d in
    let extra = digits exact exact - 28 in
    let coefficient = half_even (d * 10 ^ extra) m * 10 ^ extra in
    let sign =
      if is_neg a
      then (if is_neg b then pos 1 else negsuc 0)
      else if is_neg b
      then negsuc 0
      else pos 1 in
    record { num = sign *ℤ pos coefficient; scale = shift }
