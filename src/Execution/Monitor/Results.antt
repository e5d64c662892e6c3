-- ===== src/Execution/Monitor/Results.antt =====
-- The results of a closed quantity.
use divap_trader.Base.{false, Option, none, some, if◌then◌else◌, not, Bool, ◌||◌}
use divap_trader.Decimals.{
  Decimal, whole, ◌⊖◌, ◌⊗◌, quotient, to_cents, quantize, is_pos, is_truthy,
}
use divap_trader.Data.Trades.{Direction, is_buy}

-- What the move of a price brings, and its percentage of the entry.
unfoldable pub pnl_of_move : Decimal → Decimal → Decimal → Decimal × Decimal
pnl_of_move entry move quantity = (
  to_cents (move ⊗ quantity),
  quantize 4 (if is_pos entry then quotient move entry ⊗ whole 100 else whole 0),
)

unfoldable pub pnl_for_buy : Decimal → Decimal → Decimal → Decimal × Decimal
unfolding pnl_of_move
pnl_for_buy entry exit_price quantity = pnl_of_move entry (exit_price ⊖ entry) quantity

unfoldable pub pnl_for_sell : Decimal → Decimal → Decimal → Decimal × Decimal
unfolding pnl_of_move
pnl_for_sell entry exit_price quantity = pnl_of_move entry (entry ⊖ exit_price) quantity

unfoldable pub pnl_for : Direction → Decimal → Decimal → Decimal → Decimal × Decimal
unfolding pnl_for_buy pnl_for_sell
pnl_for d entry exit_price quantity =
    if is_buy d
    then pnl_for_buy entry exit_price quantity
    else pnl_for_sell entry exit_price quantity

unfoldable pub total_pnl_pct : Decimal → Decimal → Decimal → Decimal
total_pnl_pct total entry quantity =
    if not (is_pos entry) || not (is_pos quantity)
    then whole 0
    else quantize 4 (quotient total (entry ⊗ quantity) ⊗ whole 100)

-- `x or d`, and `not x`, of a value that may be missing: zero counts as missing.
abbrev pub present : Option Decimal → Bool
present none = false
present (some x) = is_truthy x

abbrev pub present_or : Option Decimal → Decimal → Decimal
present_or none d = d
present_or (some x) d = if is_truthy x then x else d

abbrev pub or_zero : Option Decimal → Decimal
or_zero x = present_or x (whole 0)
