-- ===== src/Execution/Trader/Sizes.antt =====
-- The size of an order against the balance and the least order.
use divap_trader.Base.{ℕ, ◌+◌, ◌∙◌, Bool, true, false, ap, if◌then◌else◌, ◌≡◌, refl, arith}
use divap_trader.Base.Int.{ℤ, ◌*ℤ◌}
use divap_trader.Decimals.{Decimal, whole, fixed, ◌⊗◌, maximum, le, is_pos, is_neg, to_cents}
use divap_trader.Decimals.Order.{
  le_trans, pos_of_le, maximum-ge_left, maximum-ge_right, maximum_least,
}
use divap_trader.Decimals.Rounding.{quantize_mono}
use divap_trader.Decimals.Products.{⊗_mono_right}
use divap_trader.Market.{DivapSignal}
use divap_trader.Profiles.Models.{ProfileExecution}
use divap_trader.Execution.Risk.{calculate_quote_amount}
use divap_trader.Execution.Risk.Bounds.{calculate_quote_amount_bounds}
use divap_trader.Execution.Trader.Orders.{quote_for, min_order_usdt}

*ℤ_comm : (a b : ℤ) → a *ℤ b ≡ b *ℤ a
unfolding ◌*ℤ◌
*ℤ_comm a b = ground arith

abbrev decimal : ℤ → ℕ → Decimal
decimal n s = record { num = n; scale = s }

⊗_comm : (a b : Decimal) → a ⊗ b ≡ b ⊗ a
unfolding ◌⊗◌
⊗_comm a b =
    let scales : a.scale + b.scale ≡ b.scale + a.scale = omega arith in
    ap (λ n. decimal n (a.scale + b.scale)) (*ℤ_comm a.num b.num)
    ∙ ap (λ s. decimal (b.num *ℤ a.num) s) scales

⊗_mono_left : (a b c : Decimal) → is_neg c ≡ false → le a b ≡ true → le (a ⊗ c) (b ⊗ c) ≡ true
⊗_mono_left a b c n h = rw (⊗_comm a c, ⊗_comm b c) (⊗_mono_right c a b n h)

zero-le : (a : Decimal) → is_pos a ≡ true → le (whole 0) a ≡ true
unfolding le
zero-le a h = ground arith

min_order_usdt_pos : is_pos min_order_usdt ≡ true
min_order_usdt_pos = refl

sized :
    (b : Bool) (amount least share : Decimal)
    → is_pos amount ≡ b
    → le amount share ≡ true
    → is_pos least ≡ true
    → let quote = if b then maximum amount least else whole 0 in
      (le quote (maximum share least) ≡ true)
      × ((is_pos quote ≡ b) × (is_pos quote ≡ true → le least quote ≡ true))
sized true amount least share e h p =
    let top = maximum-ge_right amount least in
    (
      maximum_least amount least _ (le_trans amount share _ h (maximum-ge_left share least))
          (maximum-ge_right share least),
      (pos_of_le least _ p top, λ e. top),
    )
sized false amount least share e h p = (
  le_trans (whole 0) least _ (zero-le least p) (maximum-ge_right share least),
  (refl, λ e. ground arith),
)

-- For a positive balance and a multiplier that is not negative, the amount of an order is at most the larger of
-- the least order and of 18% of the balance with the multiplier, in cents; the least order is 10 USDT or that
-- of the exchange. The amount is positive exactly where the share of the balance, with the multiplier and in
-- cents, is, and then at least the least order, also where this exceeds the balance.
pub quote_for_bounds :
    (usdt notional : Decimal) (signal : DivapSignal) (execution : ProfileExecution)
    → is_pos usdt ≡ true
    → is_neg execution.allocation_multiplier ≡ false
    → let quote = quote_for usdt notional signal execution in
      let least = maximum notional min_order_usdt in
      let amount = calculate_quote_amount usdt signal.timeframe signal.confidence in
      (le quote (maximum (to_cents (usdt ⊗ fixed 18 2 ⊗ execution.allocation_multiplier)) least)
        ≡ true)
      × ((is_pos quote ≡ is_pos (to_cents (amount ⊗ execution.allocation_multiplier)))
          × (is_pos quote ≡ true → le least quote ≡ true))
unfolding quote_for
quote_for_bounds usdt notional signal execution p n =
    let amount = calculate_quote_amount usdt signal.timeframe signal.confidence in
    let below = (calculate_quote_amount_bounds usdt signal.timeframe signal.confidence p).1 in
    let factor = execution.allocation_multiplier in
    sized _ (to_cents (amount ⊗ factor)) (maximum notional min_order_usdt) _ refl
      (quantize_mono 2 _ _ (⊗_mono_left amount (usdt ⊗ fixed 18 2) factor n below))
      (pos_of_le min_order_usdt _ min_order_usdt_pos (maximum-ge_right notional min_order_usdt))
