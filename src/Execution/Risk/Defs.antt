-- ===== src/Execution/Risk/Defs.antt =====
-- The size of an order, the risk/reward ratio and its minimum, as the source computes them.
use divap_trader.Base.{
  ℕ, ◌+◌, ◌*◌, String, Option, none, some, List, [], ◌∷◌, if◌then◌else◌, str_eq, not,
}
use divap_trader.Decimals.{
  Decimal, whole, fixed, ◌⊖◌, ◌⊗◌, abs, hundredth, quotient, quantize, quantize_by, round_down,
  is_pos, is_zero,
}
use divap_trader.Market.{Confidence, is_high}

-- BANK_ALLOCATION_PCT of src/core/constants.py, with the default of `allocation_pct`.
unfoldable pub bank_allocation_pct : String → ℕ × ℕ
bank_allocation_pct timeframe =
    if str_eq timeframe "1m"
    then (1, 1)
    else if str_eq timeframe "5m"
    then (1, 2)
    else if str_eq timeframe "15m"
    then (1, 2)
    else if str_eq timeframe "1h"
    then (4, 6)
    else if str_eq timeframe "4h"
    then (8, 12)
    else if str_eq timeframe "1d"
    then (10, 15)
    else if str_eq timeframe "1w"
    then (12, 18)
    else (4, 6)

-- Half of low + high has at most one digit after the point, so the float of the source is exact.
unfoldable pub allocation_of : ℕ × ℕ → Confidence → Decimal
allocation_of (low, high) c =
    if is_high c then hundredth (whole high) else hundredth (fixed (5 * (low + high)) 1)

unfoldable pub allocation_pct : String → Confidence → Decimal
unfolding allocation_of bank_allocation_pct
allocation_pct timeframe c = allocation_of (bank_allocation_pct timeframe) c

unfoldable pub calculate_quote_amount : Decimal → String → Confidence → Decimal
unfolding allocation_pct
calculate_quote_amount usdt_balance timeframe c =
    if not (is_pos usdt_balance)
    then whole 0
    else quantize_by round_down 2 (usdt_balance ⊗ allocation_pct timeframe c)

unfoldable pub risk_reward_ratio : Decimal → Decimal → Decimal → Decimal
risk_reward_ratio entry stop_loss target =
    let risk = abs (entry ⊖ stop_loss) in
    let reward = abs (target ⊖ entry) in
    if is_zero risk then whole 0 else quantize 2 (quotient reward risk)

unfoldable pub base_quantity_from_quote : Decimal → Decimal → Decimal
base_quantity_from_quote quote_amount price =
    if not (is_pos price) then whole 0 else quantize_by round_down 8 (quotient quote_amount price)

unfoldable pub ratio_in : String → List (String × Decimal) → Option Decimal
ratio_in timeframe [] = none
ratio_in timeframe ((k, r) ∷ rest) = if str_eq k timeframe then some r else ratio_in timeframe rest

abbrev pub default_min_rr_by_timeframe : List (String × Decimal)
default_min_rr_by_timeframe =
    ("1m", fixed 10 1)
    ∷ ("5m", fixed 10 1)
    ∷ ("15m", fixed 12 1)
    ∷ ("1h", fixed 12 1)
    ∷ ("4h", fixed 15 1)
    ∷ ("1d", fixed 15 1)
    ∷ ("1w", fixed 20 1)
    ∷ []

abbrev pub get_or : Option Decimal → Decimal → Decimal
get_or none d = d
get_or (some r) d = r

-- A missing table of overrides is the empty one.
unfoldable pub effective_min_risk_reward : String → Decimal → List (String × Decimal) → Decimal
unfolding ratio_in
effective_min_risk_reward timeframe profile_default overrides =
    get_or (ratio_in timeframe overrides)
      (get_or (ratio_in timeframe default_min_rr_by_timeframe) profile_default)
