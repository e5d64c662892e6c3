-- ===== src/Profiles/Models.antt =====
-- The parts of src/profiles/models.py that the execution reads.
use divap_trader.Base.{String, Bool, Option, List}
use divap_trader.Base.Int.{ℤ}
use divap_trader.Decimals.{Decimal}

pub record PartialTakeProfitLevel : Type 0 where
  pub distance_pct : ℤ

pub record ProfileExit : Type 0 where
  pub take_profit_fibo : Option Decimal
  pub time_stop_candles : ℤ
  pub time_stop_min_move_pct : Decimal
  pub time_stop_timeframes : List String
  pub partial_take_profits : List PartialTakeProfitLevel
  pub move_stop_to_breakeven_after : ℤ

-- min_confidence is in lower case, as the gate reads it.
pub record ProfileExecution : Type 0 where
  pub min_confidence : String
  pub block_on_reject : Bool
  pub min_risk_reward : Decimal
  pub max_open_trades : ℤ
  pub allowed_timeframes : List String
  pub allocation_multiplier : Decimal
  pub min_risk_reward_by_timeframe : List (String × Decimal)

pub record ProfileScan : Type 0 where
  pub enabled : Bool
  pub interval_seconds : ℤ
  pub timeframes : List String
  pub symbols : Option (List String)
  pub monitor_interval_seconds : ℤ

pub record TradingProfile : Type 0 where
  pub id : String
  pub name : String
  pub kind : String
  pub execution : ProfileExecution
  pub scan : ProfileScan
  pub exit : ProfileExit
