-- ===== src/Otc/Models.antt =====
-- The data of src/otc/models.py and the settings row of src/data/repositories/otc_settings_repo.py.
use divap_trader.Base.{ℕ, String, Bool, Option, List}
use divap_trader.Base.Int.{ℤ}
use divap_trader.Decimals.{Decimal}

-- A time of day, to the minute.
pub record TimeOfDay : Type 0 where
  pub hour : ℕ
  pub minute : ℕ

pub record OtcMartingale : Type 0 where
  pub enabled : Bool
  pub max_protections : ℤ
  pub multiplier : Decimal

-- The fields of the profile that the trading code reads; account_mode in the lower case in which the
-- executor stores it.
pub record OtcProfileConfig : Type 0 where
  pub account_mode : String
  pub default_stake_usd : Decimal
  pub max_open_trades : ℤ
  pub dry_run : Bool
  pub martingale : OtcMartingale
  pub entry_max_lateness_seconds : ℤ
  pub protection_max_lateness_seconds : ℤ

-- entry_time is a datetime that the parser reads from "%H:%M", so that its date and its seconds are always the
-- same; the code reads only its hour and its minute.
pub record OtcSignal : Type 0 where
  pub asset : String
  pub direction : String
  pub expiry_minutes : ℤ
  pub entry_time : Option TimeOfDay
  pub raw_text : String
  pub protection_level : ℤ
  pub max_auto_protections : Option ℤ
  pub protection_schedule : List TimeOfDay

pub record OtcTradeResult : Type 0 where
  pub executed : Bool
  pub reason : String
  pub trade_id : Option ℕ
  pub order_id : Option String
  pub asset : String
  pub direction : String
  pub stake_usd : Decimal
  pub pnl_usd : Option Decimal
  pub dry_run : Bool
  pub protection_level : ℕ

pub record OtcSettlementContext : Type 0 where
  pub transport : String
  pub resolved_asset : String
  pub direction : String
  pub stake_usd : Decimal
  pub duration_minutes : ℤ
  pub order_id : Option String
  pub mcp_asset_id : Option ℤ
  pub mcp_position_id : Option ℤ
  pub legacy_order_id : Option String

-- The reasons that `sequence_reason` gives.
pub data SequenceReason : Type 0 where
  no_legs dry_run_done sequence_win sequence_loss sequence_even sequence_stopped : SequenceReason
  execution_failed : String → SequenceReason

pub record OtcSequenceResult : Type 0 where
  pub executed : Bool
  pub reason : SequenceReason
  pub legs : List OtcTradeResult
  pub asset : String
  pub direction : String
  pub total_pnl_usd : Option Decimal
  pub dry_run : Bool

pub record OtcSettingsRecord : Type 0 where
  pub stake_usd : Option Decimal
  pub initial_bankroll_usd : Option Decimal
  pub daily_goal_usd : Option Decimal
  pub monthly_goal_usd : Option Decimal
  pub daily_stop_loss_pct : Option Decimal
  pub daily_stop_win_pct : Option Decimal
  pub stop_win_enabled : Bool
  pub stop_loss_enabled : Bool
  pub usd_brl_rate : Option Decimal
  pub stake_pct : Option Decimal
  pub stake_min_usd : Option Decimal
  pub stake_max_usd : Option Decimal
  pub stake_risk_profile : String
