-- ===== src/Witnesses/Orders.antt =====
-- The theorems on the executor at a purchase of 350 USDT in a month whose goal is reached.
use divap_trader.Base.{ℕ, ◌+◌, ◌≡◌, refl, true, false, none, some, [], ◌∷◌}
use divap_trader.Base.Int.{pos, leb_ℤ, ◌*ℤ◌}
use divap_trader.Decimals.{
  whole, le, lt, fixed, to_cents, is_pos, abs, ◌⊖◌, quantize, quotient, quantize_by, ◌⊗◌, maximum,
  hundredth, round_down,
}
use divap_trader.Data.Trades.{count_open_trades, count_rows, has_open_trade, create_trade}
use divap_trader.Profiles.Models.{TradingProfile}
use divap_trader.Bankroll.Settings.{
  BankrollRow, get_settings, current_row, row_to_record, parsed_ids,
}
use divap_trader.Bankroll.Context.{
  get_execution_profile_for, get_execution_context, select_profile, protected_profile, meta_of,
}
use divap_trader.Execution.Gate.Defs.{
  should_execute_trade, decide_profile, decide_reward, take_profit_for,
}
use divap_trader.Execution.Risk.Defs.{
  risk_reward_ratio, effective_min_risk_reward, calculate_quote_amount, allocation_pct,
}
use divap_trader.Profiles.ExitPolicy.{resolve_take_profit, target_with, uses_partial_take_profits}
use divap_trader.Execution.Trader.Steps.{
  TraderState, Holds, With, returned, and_then, choose, done, read, on_bankroll, call, next, query,
  catching, caught, store,
}
use divap_trader.Execution.Trader.Ports.{Broker, TraderSettings, Venue}
use divap_trader.Execution.Trader.Orders.{
  quote_for, min_order_usdt, execute_live, execute_buy, resolve_quote_amount, given_execution,
  protect_buy, place_target, book, execution_of,
}
use divap_trader.Execution.Trader.Execute.{
  try_execute, effective_id, profile_for, context_for, check_limits, open_with, open_trade,
  gate_decision, after_gate,
}
use divap_trader.Execution.Trader.Booked.{Booked}
use divap_trader.Execution.Trader.Outcomes.{
  is_executed, try_execute-Booked, try_execute-max_open_trades,
}
use divap_trader.Execution.Trader.Entry.{IsAdmitted, try_execute-IsAdmitted}
use divap_trader.Execution.Trader.Protected.{IsProtected, IsCautious, try_execute-IsCautious}
use divap_trader.Execution.Trader.Sizes.{quote_for_bounds}
use divap_trader.Witnesses.Trading.{signal, exec, cfg, anti}
use divap_trader.Witnesses.Samples.{open_row}

abbrev pub profile : TradingProfile
profile = record anti { id = "divap" }

abbrev pub ports : Broker ℕ
ports = record {
  get_usdt_balance = λ w. (returned (whole 50000), w + 1);
  get_base_balance = λ symbol w. (returned (whole 1), w + 1);
  min_notional = λ symbol w. (returned (whole 5), w + 1);
  market_buy_quote = λ symbol quote w. (
    returned (record { order_id = "7"; price = whole 100; filled = whole 10; cost = whole 1000 }),
    w + 1,
  );
  market_sell = λ symbol quantity w. (
    returned (record { order_id = "8"; price = whole 100; filled = quantity; cost = whole 1000 }),
    w + 1,
  );
  place_stop_loss_limit = λ symbol quantity stop limit w. (returned (some "9"), w + 1);
  place_take_profit_limit = λ symbol quantity price w. (returned (some "10"), w + 1);
  fetch_ohlcv = λ symbol timeframe w. (returned [], w + 1);
  load_profile = λ id. some profile;
  now = λ w. (w, w);
  current_period_month = λ w. ("2025-03", w);
}

abbrev pub settings : TraderSettings
settings = record { gate = cfg; trading_max_open_trades = pos 2; trading_dry_run = false }

abbrev bankroll_row : BankrollRow
bankroll_row = record {
  active_profile_id = "divap";
  active_profile_ids = none;
  monthly_target_usdt = some (whole 500);
  goal_reached_at = some 4;
  period_month = "2025-03";
}

abbrev pub before : TraderState ℕ
before = record {
  world = 0;
  bankroll = some bankroll_row;
  trades = record { next_id = 3; rows = open_row ∷ [] };
}

executed :
    is_executed
      (try_execute ports settings Venue.binance signal (some 1) none (some "divap") [] before).0
    ≡ true
unfolding try_execute and_then choose done read on_bankroll call next query catching caught store
    effective_id profile_for context_for get_execution_profile_for get_execution_context
    get_settings current_row row_to_record parsed_ids select_profile protected_profile meta_of
    should_execute_trade decide_profile decide_reward take_profit_for lt risk_reward_ratio abs ◌⊖◌
    quantize quotient effective_min_risk_reward check_limits count_open_trades count_rows
    has_open_trade open_with resolve_take_profit open_trade execute_live execute_buy
    resolve_quote_amount given_execution quote_for calculate_quote_amount quantize_by ◌⊗◌ ◌*ℤ◌
    maximum protect_buy place_target book create_trade execution_of allocation_pct gate_decision
    target_with after_gate hundredth round_down uses_partial_take_profits
executed = refl

try_execute-IsAdmitted_example : IsAdmitted ports settings signal none (some "divap") before
try_execute-IsAdmitted_example =
    try_execute-IsAdmitted ports settings Venue.binance signal (some 1) none [] (some "divap")
      before executed

try_execute-Booked_example :
    let after =
      try_execute ports settings Venue.binance signal (some 1) none (some "divap") [] before in
    Holds (λ r t. Booked signal before.trades r t.trades) (With before.trades) after.0 after.1
try_execute-Booked_example =
    try_execute-Booked ports settings Venue.binance signal (some 1) none (some "divap") [] before

room : leb_ℤ (pos (count_open_trades none before.trades)) (pos 2) ≡ true
unfolding count_open_trades
room = refl

try_execute-max_open_trades_example :
    let after =
      try_execute ports settings Venue.binance signal (some 1) none (some "divap") [] before in
    leb_ℤ (pos (count_open_trades none after.1.trades)) (pos 2) ≡ true
try_execute-max_open_trades_example =
    try_execute-max_open_trades ports settings Venue.binance signal (some 1) none (some "divap") []
      before room

reached : IsProtected ports bankroll_row "divap"
reached = record {
  month = λ w. refl;
  reached_at = 4;
  reached = refl;
  profile = profile;
  loaded = refl;
  not_tasso = refl;
  named = refl;
}

try_execute-IsCautious_example : IsCautious signal none "divap" before.trades
try_execute-IsCautious_example =
    try_execute-IsCautious ports settings Venue.binance signal (some 1) none [] bankroll_row "divap"
      reached before refl executed

quote_for_bounds_example :
    let quote = quote_for (whole 5) (whole 5) signal exec in
    let least = maximum (whole 5) min_order_usdt in
    let amount = calculate_quote_amount (whole 5) signal.timeframe signal.confidence in
    (le quote (maximum (to_cents (whole 5 ⊗ fixed 18 2 ⊗ exec.allocation_multiplier)) least) ≡ true)
    × ((is_pos quote ≡ is_pos (to_cents (amount ⊗ exec.allocation_multiplier)))
        × (is_pos quote ≡ true → le least quote ≡ true))
quote_for_bounds_example = quote_for_bounds (whole 5) (whole 5) signal exec refl refl
