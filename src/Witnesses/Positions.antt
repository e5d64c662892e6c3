-- ===== src/Witnesses/Positions.antt =====
-- The theorems on the monitor at a purchase whose price has fallen below its stop.
use divap_trader.Base.{
  ℕ, ◌+◌, ◌≤◌, ◌≡◌, ◌≢◌, refl, true, false, none, some, [], ◌∷◌, arith, length, All,
}
use divap_trader.Base.Int.{negsuc, ◌*ℤ◌, ◌-ℤ◌}
use divap_trader.Decimals.{whole, le, ◌⊖◌, ◌⊗◌, quotient, quantize}
use divap_trader.Data.Trades.{
  TradeRecord, closed, stop_loss, buy, get_trade, list_open_trades, closed_row, effective_remaining,
  has_partial_exits, close_trade, update_where, update_rows, find_row,
}
use divap_trader.Execution.Monitor.Steps.{
  MonitorState, Exchange, and_then, next, call, choose, done, update,
}
use divap_trader.Execution.Monitor.Closing.{
  order_closed, market_close, exit_price_of, close, finalize_close,
}
use divap_trader.Execution.Monitor.Results.{pnl_for, pnl_for_buy, pnl_of_move}
use divap_trader.Execution.Monitor.Sync.{
  sync_trade, sync_open_positions, apply_time_stop, time_stop_of, sync_resolved,
  with_resolved_partial_levels, levels_from, sync_buy_trade, sync_whole_buy, close_at, watch_whole,
  watch_price, stopped,
}
use divap_trader.Execution.Monitor.Watch.{sync_trade-others, sync_open_positions_lem}
use divap_trader.Execution.Monitor.Closed.{sync_trade_closes}
use divap_trader.Witnesses.Samples.{open_row}

-- Each call of the exchange is counted; every market order is filled at 90.
abbrev exchange : Exchange ℕ
exchange = record {
  fetch_order = λ symbol id w. (some ("open", whole 0), w + 1);
  market_sell = λ symbol qty w. (some (whole 90, qty), w + 1);
  market_buy_quote = λ symbol quote w. (some (whole 90, quote), w + 1);
  fetch_ticker_price = λ symbol w. (some (whole 90), w + 1);
  place_stop_loss_limit = λ symbol qty stop limit w. (some none, w + 1);
  can_cancel = false;
  cancel_order = λ symbol id w. (none, w);
  fetch_ohlcv = λ symbol timeframe w. (some none, w);
  load_profile = λ id. none;
  now = λ w. w;
  notify_closed = λ trade price pnl pct reason w. (some tt, w);
  notify_partial = λ trade n total price pnl remaining w. (some tt, w);
}

abbrev bought : TradeRecord
bought = record open_row {
  id = 2;
  symbol = "BTCUSDT";
  timeframe = "1h";
  direction = buy;
  entry_price = some (whole 100);
  stop_loss_price = some (whole 95);
  take_profit_price = some (whole 110);
  quantity = some (whole 2);
  market = "crypto";
  venue = "binance";
  profile_id = none;
}

abbrev before : MonitorState ℕ
before = record { world = 0; trades = record { next_id = 3; rows = open_row ∷ bought ∷ [] } }

sync_trade-others_example :
    get_trade 1 (sync_trade exchange bought before).1.trades ≡ get_trade 1 before.trades
sync_trade-others_example = sync_trade-others exchange bought 1 before (omega arith)

others : All (λ t. 7 ≢ t.id) (list_open_trades before.trades)
unfolding list_open_trades
others = (omega arith, (omega arith, tt))

sync_open_positions_lem_example :
    let (r, s) = sync_open_positions exchange before in
    (r.checked ≡ length (list_open_trades before.trades))
    × (r.closed_count + r.errors ≤ r.checked)
    × (get_trade 7 s.trades ≡ get_trade 7 before.trades)
sync_open_positions_lem_example = sync_open_positions_lem exchange before 7 others

reports_closed : (sync_trade exchange bought before).0 ≡ some true
unfolding sync_trade and_then apply_time_stop time_stop_of done choose next update call
    sync_resolved with_resolved_partial_levels levels_from sync_buy_trade has_partial_exits
    sync_whole_buy order_closed close_at watch_whole watch_price stopped le market_close
    exit_price_of close finalize_close pnl_for pnl_for_buy pnl_of_move quantize quotient ◌⊖◌ ◌⊗◌
    ◌*ℤ◌ ◌-ℤ◌ close_trade update_where update_rows find_row get_trade effective_remaining
reports_closed = refl

abbrev row_after : TradeRecord
row_after =
    closed_row (whole 90) (record { num = negsuc 1999; scale = 2 })
      (record { num = negsuc 99999; scale = 4 }) none stop_loss 2 bought

in_table : get_trade 2 (sync_trade exchange bought before).1.trades ≡ some row_after
unfolding sync_trade and_then apply_time_stop time_stop_of done choose next update call
    sync_resolved with_resolved_partial_levels levels_from sync_buy_trade has_partial_exits
    sync_whole_buy order_closed close_at watch_whole watch_price stopped le market_close
    exit_price_of close finalize_close pnl_for pnl_for_buy pnl_of_move quantize quotient ◌⊖◌ ◌⊗◌
    ◌*ℤ◌ ◌-ℤ◌ close_trade update_where update_rows find_row get_trade effective_remaining
in_table = refl

sync_trade_closes_example : row_after.status ≡ closed
sync_trade_closes_example =
    sync_trade_closes exchange bought before row_after reports_closed in_table
