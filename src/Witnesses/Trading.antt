-- ===== src/Witnesses/Trading.antt =====
-- The theorems on the gate, the order size, the context and the partial exits at sample signals.
use divap_trader.Base.{◌≡◌, ◌≢◌, ◌⊎◌, refl, true, false, none, some, [], ◌∷◌}
use divap_trader.Base.Int.{pos, ◌+ℤ◌}
use divap_trader.Decimals.{whole, fixed, is_zero, le, quantize, quotient, abs, ◌⊖◌, lt}
use divap_trader.Data.Trades.{buy, sell}
use divap_trader.Market.{
  DivapSignal, high, MarketContext, confirm, FearGreedReading, bullish, bearish, trend_of,
}
use divap_trader.Context.Scoring.{
  MarketContextParts, assess_market_context, score_to_verdict, raw_assessment, dollar_step,
  dollar_of, news_step, ltf_step, is_ltf, apply_htf_alignment, market_cap_step, fear_greed_step,
  clamp_score,
}
use divap_trader.Context.Verdicts.{assess_market_context_confirms}
use divap_trader.Profiles.Models.{ProfileExecution, TradingProfile}
use divap_trader.Profiles.ExitPolicy.{partial_close_quantity}
use divap_trader.Profiles.ExitPolicy.Partials.{remaining_after, partial_close_quantity_all}
use divap_trader.Execution.Risk.Defs.{risk_reward_ratio, effective_min_risk_reward}
use divap_trader.Execution.Gate.Defs.{
  Settings, allowed, should_execute_trade, decide_profile, decide_reward, take_profit_for,
}
use divap_trader.Execution.Gate.Approval.{
  IsSwitchedOn, IsFit, should_execute_trade-IsSwitchedOn, should_execute_trade-IsFit,
  should_execute_trade-anti_divap,
}

abbrev pub signal : DivapSignal
signal = record {
  symbol = "BTCUSDT";
  timeframe = "1h";
  direction = buy;
  confidence = high;
  entry_price = whole 100;
  stop_price = whole 98;
  targets = whole 106 ∷ [];
}

abbrev pub cfg : Settings
cfg = record { trading_enabled = true; trading_mode = "testnet"; binance_use_testnet = true }

abbrev pub exec : ProfileExecution
exec = record {
  min_confidence = "high";
  block_on_reject = true;
  min_risk_reward = fixed 15 1;
  max_open_trades = pos 3;
  allowed_timeframes = "1h" ∷ "4h" ∷ [];
  allocation_multiplier = whole 1;
  min_risk_reward_by_timeframe = [];
}

abbrev pub anti : TradingProfile
anti = record {
  id = "anti_divap";
  name = "Anti-DIVAP";
  kind = "crypto";
  execution = exec;
  scan = record {
    enabled = true;
    interval_seconds = pos 900;
    timeframes = "1h" ∷ [];
    symbols = none;
    monitor_interval_seconds = pos 300;
  };
  exit = record {
    take_profit_fibo = none;
    time_stop_candles = pos 0;
    time_stop_min_move_pct = whole 0;
    time_stop_timeframes = [];
    partial_take_profits = [];
    move_stop_to_breakeven_after = pos 0;
  };
}

abbrev fearful : FearGreedReading
fearful = record { value = pos 12; classification = "Extreme Fear" }

abbrev context : MarketContext
context = record {
  fear_greed = some fearful;
  htf_trends = ("1d", bearish) ∷ [];
  context_score = pos 70;
  context_verdict = confirm;
}

approved :
    should_execute_trade (exec, true) signal (some context) cfg none false none none ≡ allowed
unfolding should_execute_trade decide_profile decide_reward take_profit_for lt risk_reward_ratio abs
    ◌⊖◌ quantize quotient effective_min_risk_reward
approved = refl

should_execute_trade-IsSwitchedOn_example : IsSwitchedOn cfg
should_execute_trade-IsSwitchedOn_example =
    should_execute_trade-IsSwitchedOn (exec, true) signal (some context) cfg none false none none
      approved

should_execute_trade-IsFit_example : IsFit signal (some context) exec true none none
should_execute_trade-IsFit_example =
    should_execute_trade-IsFit (exec, true) signal (some context) cfg none false none none refl
      approved

should_execute_trade-anti_divap_example :
    should_execute_trade (exec, true) signal (some context) cfg none false (some anti) none
    ≢ allowed
should_execute_trade-anti_divap_example =
    should_execute_trade-anti_divap (exec, true) signal context fearful cfg none false anti none
      refl refl refl

partial_close_quantity_all_example :
    (le (partial_close_quantity (whole 10) (whole 7) 1 3) (whole 7) ≡ true)
    × (is_zero (remaining_after (whole 10) 3 3) ≡ true)
partial_close_quantity_all_example = partial_close_quantity_all (whole 10) (whole 7) 1 3 2

abbrev parts : MarketContextParts
parts = record {
  fear_greed = some fearful;
  market_cap_change = none;
  htf_trends = ("1d", bullish) ∷ ("1w", bullish) ∷ [];
  macro_indices = [];
  news_headlines = [];
}

confirmed : (assess_market_context "1h" buy parts).1 ≡ confirm
unfolding assess_market_context score_to_verdict raw_assessment dollar_step dollar_of news_step
    ltf_step is_ltf trend_of apply_htf_alignment market_cap_step fear_greed_step clamp_score ◌+ℤ◌
confirmed = refl

assess_market_context_confirms_example :
    let daily = trend_of "1d" parts.htf_trends in
    let weekly = trend_of "1w" parts.htf_trends in
    ((buy ≡ buy) × ((daily ≡ bullish) ⊎ (weekly ≡ bullish)))
    ⊎ ((buy ≡ sell) × (daily ≡ bearish) × (weekly ≡ bearish))
assess_market_context_confirms_example = assess_market_context_confirms "1h" buy parts confirmed
