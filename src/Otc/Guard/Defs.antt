-- ===== src/Otc/Guard/Defs.antt =====
-- `decide_stop` of src/otc/guard.py.
use divap_trader.Base.{Bool, false, ◌&&◌, Option, none, some, if◌then◌else◌}
use divap_trader.Base.Int.{pos}
use divap_trader.Decimals.{Decimal, ◌⊗◌, hundredth, negate, abs, is_pos, le}

pub data StopReason : Type 0 where
  stop_win stop_loss : StopReason

-- `x is not None and x > 0`, which is also `x and x > 0`.
abbrev pub given : Option Decimal → Bool
given none = false
given (some x) = is_pos x

abbrev pub value : Option Decimal → Decimal
value none = record { num = pos 0; scale = 0 }
value (some x) = x

-- The balance times a percentage, over 100.
abbrev pub share : Option Decimal → Option Decimal → Decimal
share bankroll pct = hundredth (value bankroll ⊗ value pct)

pub record StopConfig : Type 0 where
  pub stop_win_enabled : Bool
  pub stop_loss_enabled : Bool
  pub daily_goal_usd : Option Decimal
  pub initial_bankroll_usd : Option Decimal
  pub daily_stop_loss_pct : Option Decimal
  pub daily_stop_win_pct : Option Decimal
  pub stop_win_usd : Option Decimal
  pub stop_loss_usd : Option Decimal

-- The `if stop_win_enabled:` block: whether it returns.
unfoldable pub win_block : Decimal → StopConfig → Bool
win_block pnl c =
    if c.stop_win_enabled
    then if given c.stop_win_usd
      then le (value c.stop_win_usd) pnl
      else if given c.daily_stop_win_pct && given c.initial_bankroll_usd
      then le (share c.initial_bankroll_usd c.daily_stop_win_pct) pnl
      else if given c.daily_goal_usd
      then le (value c.daily_goal_usd) pnl
      else false
    else false

-- The `if stop_loss_enabled:` block.
unfoldable pub loss_block : Decimal → StopConfig → Bool
loss_block pnl c =
    if c.stop_loss_enabled
    then if given c.stop_loss_usd
      then le pnl (negate (value c.stop_loss_usd))
      else if given c.daily_stop_loss_pct && given c.initial_bankroll_usd
      then le pnl (negate (abs (share c.initial_bankroll_usd c.daily_stop_loss_pct)))
      else false
    else false

unfoldable pub decide_stop : Decimal → StopConfig → Option StopReason
unfolding win_block loss_block
decide_stop pnl c =
    if win_block pnl c then some stop_win else if loss_block pnl c then some stop_loss else none
