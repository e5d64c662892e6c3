-- ===== src/Execution/Risk/Bounds.antt =====
-- The share of the balance that an order starts from.
use native.Mathlib.Nat.{div-add-mod}
use divap_trader.Base.{ℕ, ◌*◌, ◌/◌, ◌^◌, String, true, false, ◌≡◌, ◌≤◌, arith}
use divap_trader.Base.Int.{pos_part, ◌*ℤ◌}
use divap_trader.Decimals.{
  Decimal, fixed, ◌⊗◌, hundredth, quantize_by, round_down, is_pos, is_neg, le,
}
use divap_trader.Decimals.Order.{le_trans, not_neg_of_pos}
use divap_trader.Decimals.Products.{⊗_mono_right}
use divap_trader.Market.{Confidence}
use divap_trader.Execution.Risk.Defs.{
  bank_allocation_pct, allocation_of, allocation_pct, calculate_quote_amount,
}

div_le : (n d : ℕ) → n / d * d ≤ n
div_le n d = omega (arith, div-add-mod n d)

down_parts : (n t s : ℕ) → (n * 10 ^ s) / 10 ^ t * 10 ^ t ≤ n * 10 ^ s
down_parts n t s = div_le (n * 10 ^ s) (10 ^ t)

-- Rounding down never raises a decimal that is not negative.
pub quantize_down-le :
    (s : ℕ) (a : Decimal) → is_neg a ≡ false → le (quantize_by round_down s a) a ≡ true
unfolding quantize_by round_down le
quantize_down-le s a h = ground (arith, down_parts (pos_part a.num) a.scale s)

pub quantize_down_nonneg :
    (s : ℕ) (a : Decimal) → is_neg a ≡ false → is_neg (quantize_by round_down s a) ≡ false
unfolding quantize_by
quantize_down_nonneg s a h = ground arith

bank_ranges :
    (timeframe : String)
    → let range = bank_allocation_pct timeframe in (range.0 ≤ range.1) × (range.1 ≤ 18)
unfolding bank_allocation_pct
bank_ranges timeframe = ground arith

allocation_most :
    (range : ℕ × ℕ) (c : Confidence)
    → range.0 ≤ range.1
    → range.1 ≤ 18
    → le (allocation_of range c) (fixed 18 2) ≡ true
unfolding le allocation_of hundredth
allocation_most (low, hi) c p q = ground arith

allocation_nonneg : (range : ℕ × ℕ) (c : Confidence) → is_neg (allocation_of range c) ≡ false
unfolding allocation_of hundredth
allocation_nonneg (low, hi) c = ground arith

nonneg_product : (a b : Decimal) → is_neg a ≡ false → is_neg b ≡ false → is_neg (a ⊗ b) ≡ false
unfolding ◌⊗◌ ◌*ℤ◌
nonneg_product a b p q = ground arith

pub calculate_quote_amount_bounds :
    (balance : Decimal) (timeframe : String) (c : Confidence)
    → is_pos balance ≡ true
    → let amount = calculate_quote_amount balance timeframe c in
      (is_neg amount ≡ false) × (le amount (balance ⊗ fixed 18 2) ≡ true)
unfolding calculate_quote_amount allocation_pct
calculate_quote_amount_bounds balance timeframe c h =
    let range = bank_allocation_pct timeframe in
    let n = not_neg_of_pos balance h in
    let product = nonneg_product balance (allocation_of range c) n (allocation_nonneg range c) in
    let most = allocation_most range c ((bank_ranges timeframe).0) ((bank_ranges timeframe).1) in
    rw h (
      quantize_down_nonneg 2 _ product,
      le_trans _ _ _ (quantize_down-le 2 _ product) (⊗_mono_right balance _ _ n most),
    )
