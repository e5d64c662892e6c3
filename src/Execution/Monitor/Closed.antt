-- ===== src/Execution/Monitor/Closed.antt =====
-- A watch that reports a closing has closed the trade in the table.
use divap_trader.Base.{ℕ, Bool, true, Option, none, some, List, ◌≡◌, refl}
use divap_trader.Decimals.{Decimal}
use divap_trader.Data.Trades.{
  TradeRecord, Trades, CloseReason, closed, closed_row, take_profit, stop_loss, time_stop,
  update_where, get_trade, close_trade,
}
use divap_trader.Market.{Candle}
use divap_trader.Profiles.Models.{TradingProfile}
use divap_trader.Execution.Monitor.Steps.{
  MonitorState, Step, Exchange, done, next, and_then, call, update,
}
use divap_trader.Execution.Monitor.Closing.{
  finalize_close, close, close_with_accumulated, market_close,
}
use divap_trader.Execution.Monitor.Partial.{
  PartialFill, keep_open, after_fill, execute_partial_take_profit,
}
use divap_trader.Execution.Monitor.Sync.{
  with_resolved_partial_levels, close_on_time, time_stop_of, apply_time_stop, close_at,
  close_accumulated_at, watch_price, take_whole, take_level, watch_whole, sync_whole_buy,
  sync_partials, sync_buy_trade, sync_sell_trade, sync_resolved, sync_trade,
}
use divap_trader.Execution.Monitor.Watch.{with_levels-id}
use divap_trader.Execution.Monitor.Closes.{
  IsClosedIn, Closes, false-Closes, and_then-Closes, choose-Closes, or_else-Closes, find_row-closed,
}

module _ {W : Type 0} (x : Exchange W) (trade : TradeRecord) where
  -- The notification leaves the table alone.
  after_notice :
      (db : Trades) (r : Option (Unit {0}) × MonitorState W)
      → r.1.trades ≡ db
      → IsClosedIn trade.id db
      → IsClosedIn trade.id (next r (λ v. done true)).1.trades
  unfolding next done
  after_notice db (none, s) e h = rw e h
  after_notice db (some u, s) e h = rw e h

  finalize_close-Closes :
      (exit_price pnl pct : Decimal) (reason : CloseReason)
      → Closes trade.id (finalize_close x trade exit_price pnl pct reason)
  unfolding finalize_close and_then next update call close_trade update_where get_trade
  finalize_close-Closes exit_price pnl pct reason = record {
    closes = λ s h. after_notice _ _ refl (
        find_row-closed trade.id (closed_row exit_price pnl pct none reason (x.now s.world))
          s.trades.rows (λ t. (refl, refl)));
  }

  close-Closes :
      (price : Decimal) (reason : CloseReason) (q : Option Decimal)
      → Closes trade.id (close x trade price reason q)
  unfolding close
  close-Closes price reason q =
      choose-Closes _ false-Closes (finalize_close-Closes price _ _ reason)

  accumulated-Closes :
      (price : Decimal) (reason : CloseReason) (q : Option Decimal)
      → Closes trade.id (close_with_accumulated x trade price reason q)
  unfolding close_with_accumulated
  accumulated-Closes price reason q =
      choose-Closes _ false-Closes (finalize_close-Closes price _ _ reason)

  market_close-Closes : (reason : CloseReason) → Closes trade.id (market_close x trade reason)
  unfolding market_close
  market_close-Closes reason = choose-Closes _ false-Closes (
      and_then-Closes _ (λ order. and_then-Closes _ (λ price.
        choose-Closes _ (accumulated-Closes price reason _) (close-Closes price reason _))))

  keep_open-Closes : (f : PartialFill) → Closes trade.id (keep_open x trade f)
  unfolding keep_open
  keep_open-Closes f =
      and_then-Closes _ (λ u. and_then-Closes _ (λ v. and_then-Closes _ (λ z. false-Closes)))

  execute_partial-Closes :
      (price : Decimal) → Closes trade.id (execute_partial_take_profit x trade price)
  unfolding execute_partial_take_profit after_fill
  execute_partial-Closes price = choose-Closes _ false-Closes (
      and_then-Closes _
        (λ order. choose-Closes _ (finalize_close-Closes _ _ _ take_profit) (keep_open-Closes _)))

  close_on_time-Closes :
      (p : TradingProfile) (candles : Option (List Candle))
      → Closes trade.id (close_on_time x trade p candles)
  unfolding close_on_time
  close_on_time-Closes p none = false-Closes
  close_on_time-Closes p (some candles) =
      choose-Closes _ (market_close-Closes time_stop) false-Closes

  time_stop_of-Closes : (p : Option TradingProfile) → Closes trade.id (time_stop_of x trade p)
  unfolding time_stop_of
  time_stop_of-Closes none = false-Closes
  time_stop_of-Closes (some p) =
      choose-Closes _ false-Closes (and_then-Closes _ (λ candles. close_on_time-Closes p candles))

  close_at-Closes :
      (reason : CloseReason) (price : Option Decimal) {go_on : Step W Bool}
      → Closes trade.id go_on
      → Closes trade.id (close_at x trade reason price go_on)
  unfolding close_at
  close_at-Closes reason none h = h
  close_at-Closes reason (some price) h = close-Closes price reason none

  close_accumulated_at-Closes :
      (price : Option Decimal) {go_on : Step W Bool}
      → Closes trade.id go_on
      → Closes trade.id (close_accumulated_at x trade price go_on)
  unfolding close_accumulated_at
  close_accumulated_at-Closes none h = h
  close_accumulated_at-Closes (some price) h = accumulated-Closes price stop_loss none

  watch_price-Closes :
      {follow : Decimal → Step W Bool}
      → ((price : Decimal) → Closes trade.id (follow price))
      → Closes trade.id (watch_price x trade follow)
  unfolding watch_price
  watch_price-Closes h =
      and_then-Closes _ (λ price. choose-Closes _ (market_close-Closes stop_loss) (h price))

  take_level-Closes :
      (price : Decimal) (target : Option Decimal)
      → Closes trade.id (take_level x trade price target)
  unfolding take_level
  take_level-Closes price none = false-Closes
  take_level-Closes price (some target) =
      choose-Closes _ (execute_partial-Closes price) false-Closes

  watch_whole-Closes : Closes trade.id (watch_whole x trade)
  unfolding watch_whole take_whole
  watch_whole-Closes =
      choose-Closes _
        (watch_price-Closes
          (λ price. choose-Closes _ (market_close-Closes take_profit) false-Closes))
        false-Closes

  sync_partials-Closes : Closes trade.id (sync_partials x trade)
  unfolding sync_partials
  sync_partials-Closes = and_then-Closes _ (λ hit.
      close_accumulated_at-Closes hit
        (choose-Closes _ (watch_price-Closes (λ price. take_level-Closes price _)) false-Closes))

  sync_whole_buy-Closes : Closes trade.id (sync_whole_buy x trade)
  unfolding sync_whole_buy
  sync_whole_buy-Closes = and_then-Closes _ (λ taken.
      close_at-Closes take_profit taken
        (and_then-Closes _ (λ hit. close_at-Closes stop_loss hit watch_whole-Closes)))

  sync_resolved-Closes : Closes trade.id (sync_resolved x trade)
  unfolding sync_resolved sync_buy_trade sync_sell_trade
  sync_resolved-Closes =
      choose-Closes _ (choose-Closes _ sync_partials-Closes sync_whole_buy-Closes)
        (choose-Closes _ sync_partials-Closes watch_whole-Closes)

renumbered-Closes : {W : Type 0} {m : Step W Bool} {a b : ℕ} → a ≡ b → Closes a m → Closes b m
renumbered-Closes e p = record { closes = λ s h. rw (← e) (p.closes s h) }

module _ {W : Type 0} (x : Exchange W) (trade : TradeRecord) where
  resolved-Closes : Closes trade.id (sync_resolved x (with_resolved_partial_levels x trade))
  unfolding with_resolved_partial_levels
  resolved-Closes = renumbered-Closes (with_levels-id trade _) (sync_resolved-Closes x _)

  sync_trade-Closes : Closes trade.id (sync_trade x trade)
  unfolding sync_trade apply_time_stop
  sync_trade-Closes = or_else-Closes _ resolved-Closes (time_stop_of-Closes x trade _)

  -- A watch that reports a closing has closed the trade: its row in the table, if it has one, is closed.
  pub sync_trade_closes :
      (s : MonitorState W) (t : TradeRecord)
      → (sync_trade x trade s).0 ≡ some true
      → get_trade trade.id (sync_trade x trade s).1.trades ≡ some t
      → t.status ≡ closed
  sync_trade_closes s t h e = sync_trade-Closes.closes s h t e
