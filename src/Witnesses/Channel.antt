-- ===== src/Witnesses/Channel.antt =====
-- The theorems on the second channel at a new signal and at the notice of its stop.
use divap_trader.Base.{ℕ, ◌+◌, ◌≡◌, refl, true, false, none, some, [], ◌∷◌}
use divap_trader.Base.Int.{◌*ℤ◌}
use divap_trader.Decimals.{
  whole, lt, abs, ◌⊖◌, quantize, quotient, quantize_by, ◌⊗◌, maximum, hundredth, round_down,
}
use divap_trader.Data.Trades.{count_open_trades, count_rows, has_open_trade, create_trade}
use divap_trader.Bankroll.Settings.{get_settings, current_row, row_to_record, parsed_ids}
use divap_trader.Bankroll.Context.{
  get_execution_profile_for, get_execution_context, select_profile, protected_profile, meta_of,
}
use divap_trader.Execution.Gate.Defs.{
  should_execute_trade, decide_profile, decide_reward, take_profit_for,
}
use divap_trader.Execution.Risk.Defs.{
  risk_reward_ratio, effective_min_risk_reward, calculate_quote_amount, allocation_pct,
}
use divap_trader.Profiles.ExitPolicy.{resolve_take_profit, target_with, uses_partial_take_profits}
use divap_trader.Execution.Trader.Steps.{
  TraderState, Holds, With, returned, and_then, choose, done, read, on_bankroll, call, next, query,
  catching, caught, store,
}
use divap_trader.Execution.Trader.Orders.{
  quote_for, execute_live, execute_buy, resolve_quote_amount, given_execution, protect_buy,
  place_target, book, execution_of,
}
use divap_trader.Execution.Trader.Execute.{
  try_execute, effective_id, profile_for, context_for, check_limits, open_with, open_trade,
  gate_decision, after_gate,
}
use divap_trader.Witnesses.Samples.{open_row}
use divap_trader.Data.Trades.{TradeRecord, buy}
use divap_trader.Tasso.Models.{
  TassoSignal, TassoPorts, new_signal, stop_hit, default_stop, default_target, build_divap_signal,
}
use divap_trader.Tasso.Orders.{tasso_execute, trade_with, trade_at}
use divap_trader.Tasso.Closing.{apply_stop_hit}
use divap_trader.Tasso.Effects.{Stopped, apply_stop_hit-Stopped}
use divap_trader.Tasso.Admission.{IsTaken, was_executed, tasso_execute-IsTaken}
use divap_trader.Tasso.Brackets.{default_stop-target}
use divap_trader.Witnesses.Orders.{ports, settings, before, profile}

abbrev channel : TassoPorts ℕ
channel = record {
  broker = record ports { load_profile = λ id. some (record profile { kind = "tasso" }) };
  fetch_last = λ symbol w. (some (whole 100), w + 1);
  fetch_ticker_price = λ symbol w. (returned (whole 95), w + 1);
  can_cancel = false;
  cancel_order = λ symbol id w. w;
}

abbrev bought : TassoSignal
bought = record {
  profile_id = "tasso_curto";
  symbol = some "ETHUSDT";
  direction = some buy;
  timeframe = "1h";
  entry_price = none;
  stop_price = none;
  take_profit_price = none;
  signal_kind = new_signal;
  take_profit_levels = [];
  targets_hit = 0;
}

executed : was_executed (tasso_execute channel settings bought before).0 ≡ true
unfolding tasso_execute trade_with trade_at build_divap_signal default_stop default_target
    try_execute and_then choose done read on_bankroll call next query catching caught store
    effective_id profile_for context_for get_execution_profile_for get_execution_context
    get_settings current_row row_to_record parsed_ids select_profile protected_profile meta_of
    should_execute_trade decide_profile decide_reward take_profit_for lt risk_reward_ratio abs ◌⊖◌
    quantize quotient effective_min_risk_reward check_limits count_open_trades count_rows
    has_open_trade open_with resolve_take_profit open_trade execute_live execute_buy
    resolve_quote_amount given_execution quote_for calculate_quote_amount quantize_by ◌⊗◌ ◌*ℤ◌
    maximum protect_buy place_target book create_trade execution_of allocation_pct gate_decision
    target_with after_gate hundredth round_down uses_partial_take_profits
executed = refl

tasso_execute-IsTaken_example : IsTaken channel settings bought before
tasso_execute-IsTaken_example = tasso_execute-IsTaken channel settings bought before executed

default_stop-target_example :
    let stop = default_stop (some buy) (whole 100) in
    let target = default_target (some buy) (whole 100) in
    (lt stop (whole 100) ≡ true) × (lt (whole 100) target ≡ true)
default_stop-target_example = default_stop-target (some buy) (whole 100) refl

abbrev row : TradeRecord
row = record open_row { symbol = "ETHUSDT"; venue = "binance"; profile_id = some "tasso_curto" }

abbrev notice : TassoSignal
notice = record bought { signal_kind = stop_hit }

abbrev holding : TraderState ℕ
holding = record before { trades = record { next_id = 3; rows = row ∷ [] } }

apply_stop_hit-Stopped_example :
    let after = apply_stop_hit channel settings notice holding in
    Holds
      (λ r t. Stopped settings.trading_dry_run (some "ETHUSDT") holding.trades r t.trades)
      (With holding.trades)
      after.0
      after.1
apply_stop_hit-Stopped_example = apply_stop_hit-Stopped channel settings notice holding
