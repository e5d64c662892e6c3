-- ===== src/Witnesses/Samples.antt =====
-- The data of the examples: a broker on which every order is filled and lost, its configuration, a signal.
use divap_trader.Base.{ℕ, ◌+◌, String, true, false, none, some, [], ◌∷◌, ◌≢◌, arith}
use divap_trader.Base.Int.{pos}
use divap_trader.Decimals.{Decimal, whole, fixed, negate}
use divap_trader.Data.Trades.{TradeRecord, Trades, sell, opened}
use divap_trader.Otc.Models.{
  OtcSignal, OtcProfileConfig, OtcMartingale, OtcSettlementContext, OtcSettingsRecord,
  OtcTradeResult,
}
use divap_trader.Otc.Guard.Alerts.{Alerts, answers, accepts}
use divap_trader.Otc.Executor.Ports.{Ports, ExecState}
use divap_trader.Otc.Executor.Totals.{HasContexts}

abbrev pub martingale : OtcMartingale
martingale = record { enabled = true; max_protections = pos 2; multiplier = fixed 22 1 }

abbrev pub config : OtcProfileConfig
config = record {
  account_mode = "practice";
  default_stake_usd = whole 5;
  max_open_trades = pos 1;
  dry_run = false;
  martingale = martingale;
  entry_max_lateness_seconds = pos 0;
  protection_max_lateness_seconds = pos 5;
}

abbrev pub signal : OtcSignal
signal = record {
  asset = "EURUSD-OTC";
  direction = "buy";
  expiry_minutes = pos 1;
  entry_time = none;
  raw_text = "EURUSD M1 CALL";
  protection_level = pos 0;
  max_auto_protections = some (pos 1);
  protection_schedule = [];
}

-- The same signal, asked for at its first protection.
abbrev pub protection : OtcSignal
protection = record signal { protection_level = pos 1 }

abbrev pub settings : OtcSettingsRecord
settings = record {
  stake_usd = some (whole 5);
  initial_bankroll_usd = some (whole 1000);
  daily_goal_usd = some (whole 30);
  monthly_goal_usd = none;
  daily_stop_loss_pct = some (whole 3);
  daily_stop_win_pct = some (whole 2);
  stop_win_enabled = true;
  stop_loss_enabled = true;
  usd_brl_rate = none;
  stake_pct = none;
  stake_min_usd = some (whole 1);
  stake_max_usd = none;
  stake_risk_profile = "moderate";
}

abbrev context : String → String → Decimal → OtcSettlementContext
context asset direction stake = record {
  transport = "legacy";
  resolved_asset = asset;
  direction = direction;
  stake_usd = stake;
  duration_minutes = pos 1;
  order_id = some "7";
  mcp_asset_id = none;
  mcp_position_id = none;
  legacy_order_id = some "7";
}

abbrev filled : String → String → Decimal → OtcTradeResult
filled asset direction stake = record {
  executed = true;
  reason = "opened";
  trade_id = none;
  order_id = some "7";
  asset = asset;
  direction = direction;
  stake_usd = stake;
  pnl_usd = none;
  dry_run = false;
  protection_level = 0;
}

-- The world is the number of calls made to the broker.
abbrev pub ports : Ports ℕ
ports = record {
  configured = λ w. true;
  resolve_asset = λ asset. asset;
  open_live = λ s asset stake w.
      ((filled asset s.direction stake, some (context asset s.direction stake)), w + 1);
  wait_settlement = λ c until w. (some (negate c.stake_usd), w + 1);
  wait_for_leg = λ s level lateness w. ((true, none), w);
  leg_time = λ s level w. none;
  guard_inputs = λ trades w. record {
    settings = none;
    today = 20000;
    balance = some (whole 1000);
    now = 7;
    day_pnl = some (whole 0);
    redis = answers;
    telegram = accepts;
  };
  now = λ w. w;
  otc_trading_enabled = true;
}

ports-HasContexts-some : (c : OtcSettlementContext) → some c ≢ none
ports-HasContexts-some c h = ground arith

pub ports-HasContexts : HasContexts ports
ports-HasContexts s asset stake w e = ports-HasContexts-some (context asset s.direction stake)

abbrev pub no_alerts : Alerts
no_alerts = record { keys = []; sent = [] }

abbrev pub no_trades : Trades
no_trades = record { next_id = 1; rows = [] }

abbrev pub start : ExecState ℕ
start = record {
  world = 0;
  guard = record { sessions = []; alerts = no_alerts };
  trades = no_trades;
}

abbrev pub open_row : TradeRecord
open_row = record {
  id = 1;
  alert_id = none;
  symbol = "EURUSD-OTC";
  timeframe = "1m";
  direction = sell;
  confidence = "medium";
  status = opened;
  entry_price = some (whole 0);
  exit_price = none;
  stop_loss_price = some (whole 0);
  take_profit_price = some (whole 0);
  quantity = some (whole 5);
  quote_amount = some (whole 5);
  pnl_usdt = none;
  pnl_pct = none;
  fees_usdt = none;
  context_verdict = none;
  context_score = none;
  exchange_order_id = some "7";
  stop_order_id = none;
  tp_order_id = none;
  close_reason = none;
  trading_mode = "practice";
  opened_at = some 7;
  closed_at = none;
  profile_id = some "otc";
  goal_protected = false;
  market = "otc";
  venue = "iqoption";
  take_profit_levels = [];
  remaining_quantity = none;
  partials_taken = 0;
  realized_pnl_usdt = none;
}

-- One open trade of the profile stands in the table.
abbrev pub occupied : ExecState ℕ
occupied = record start { trades = record { next_id = 2; rows = open_row ∷ [] } }
