-- ===== src/Execution/Monitor/Watch.antt =====
-- The watch over a trade touches no other trade, and the watch over all counts each result once.
use divap_trader.Base.{
  ℕ, ◌+◌, ◌≤◌, String, Bool, true, false, Option, none, some, List, [], ◌∷◌, ◌≡◌, ◌≢◌, refl, ◌∙◌,
  All, arith, length,
}
use divap_trader.Decimals.{Decimal}
use divap_trader.Data.Trades.{
  TradeRecord, CloseReason, take_profit, stop_loss, time_stop, get_trade, list_open_trades,
}
use divap_trader.Market.{Candle}
use divap_trader.Profiles.Models.{TradingProfile}
use divap_trader.Execution.Monitor.Steps.{
  MonitorState, Step, Exchange, Keeps, done-Keeps, and_then-Keeps, call-Keeps, choose-Keeps,
}
use divap_trader.Execution.Monitor.Closing.{order_closed}
use divap_trader.Execution.Monitor.Frame.{
  close-Keeps, accumulated-Keeps, market_close-Keeps, execute_partial-Keeps,
}
use divap_trader.Execution.Monitor.Sync.{
  with_levels, levels_from, with_resolved_partial_levels, close_on_time, time_stop_of,
  apply_time_stop, close_at, close_accumulated_at, watch_price, take_whole, take_level, watch_whole,
  sync_whole_buy, sync_partials, sync_buy_trade, sync_sell_trade, sync_resolved, sync_trade,
  SyncReport, count_result, sync_next, sync_each, sync_open_positions,
}

module _ {W : Type 0} (x : Exchange W) where
  order_closed-Keeps :
      (k : ℕ) (symbol : String) (id : Option String) → Keeps k (order_closed x symbol id)
  unfolding order_closed
  order_closed-Keeps k symbol none = done-Keeps k none
  order_closed-Keeps k symbol (some id) =
      choose-Keeps _ (done-Keeps k none) (and_then-Keeps (call-Keeps k _) (λ order. done-Keeps k _))

module _ {W : Type 0} (x : Exchange W) (trade : TradeRecord) where
  close_on_time-Keeps :
      (p : TradingProfile) (candles : Option (List Candle))
      → Keeps trade.id (close_on_time x trade p candles)
  unfolding close_on_time
  close_on_time-Keeps p none = done-Keeps trade.id false
  close_on_time-Keeps p (some candles) =
      choose-Keeps _ (market_close-Keeps x trade time_stop) (done-Keeps trade.id false)

  time_stop_of-Keeps : (p : Option TradingProfile) → Keeps trade.id (time_stop_of x trade p)
  unfolding time_stop_of
  time_stop_of-Keeps none = done-Keeps trade.id false
  time_stop_of-Keeps (some p) =
      choose-Keeps _ (done-Keeps trade.id false)
        (and_then-Keeps (call-Keeps trade.id _) (λ candles. close_on_time-Keeps p candles))

  close_at-Keeps :
      (reason : CloseReason) (price : Option Decimal) {go_on : Step W Bool}
      → Keeps trade.id go_on
      → Keeps trade.id (close_at x trade reason price go_on)
  unfolding close_at
  close_at-Keeps reason none h = h
  close_at-Keeps reason (some price) h = close-Keeps x trade price reason none

  close_accumulated_at-Keeps :
      (price : Option Decimal) {go_on : Step W Bool}
      → Keeps trade.id go_on
      → Keeps trade.id (close_accumulated_at x trade price go_on)
  unfolding close_accumulated_at
  close_accumulated_at-Keeps none h = h
  close_accumulated_at-Keeps (some price) h = accumulated-Keeps x trade price stop_loss none

  watch_price-Keeps :
      {follow : Decimal → Step W Bool}
      → ((price : Decimal) → Keeps trade.id (follow price))
      → Keeps trade.id (watch_price x trade follow)
  unfolding watch_price
  watch_price-Keeps h =
      and_then-Keeps (call-Keeps trade.id _)
        (λ price. choose-Keeps _ (market_close-Keeps x trade stop_loss) (h price))

  take_whole-Keeps : (price : Decimal) → Keeps trade.id (take_whole x trade price)
  unfolding take_whole
  take_whole-Keeps price =
      choose-Keeps _ (market_close-Keeps x trade take_profit) (done-Keeps trade.id false)

  take_level-Keeps :
      (price : Decimal) (target : Option Decimal) → Keeps trade.id (take_level x trade price target)
  unfolding take_level
  take_level-Keeps price none = done-Keeps trade.id false
  take_level-Keeps price (some target) =
      choose-Keeps _ (execute_partial-Keeps x trade price) (done-Keeps trade.id false)

  watch_whole-Keeps : Keeps trade.id (watch_whole x trade)
  unfolding watch_whole
  watch_whole-Keeps =
      choose-Keeps _ (watch_price-Keeps take_whole-Keeps) (done-Keeps trade.id false)

  sync_whole_buy-Keeps : Keeps trade.id (sync_whole_buy x trade)
  unfolding sync_whole_buy
  sync_whole_buy-Keeps = and_then-Keeps (order_closed-Keeps x trade.id _ _) (λ taken.
      close_at-Keeps take_profit taken (
        and_then-Keeps (order_closed-Keeps x trade.id _ _)
          (λ hit. close_at-Keeps stop_loss hit watch_whole-Keeps)))

  sync_partials-Keeps : Keeps trade.id (sync_partials x trade)
  unfolding sync_partials
  sync_partials-Keeps = and_then-Keeps (order_closed-Keeps x trade.id _ _) (λ hit.
      close_accumulated_at-Keeps hit (
        choose-Keeps _ (watch_price-Keeps (λ price. take_level-Keeps price _))
          (done-Keeps trade.id false)))

  sync_resolved-Keeps : Keeps trade.id (sync_resolved x trade)
  unfolding sync_resolved sync_buy_trade sync_sell_trade
  sync_resolved-Keeps =
      choose-Keeps _ (choose-Keeps _ sync_partials-Keeps sync_whole_buy-Keeps)
        (choose-Keeps _ sync_partials-Keeps watch_whole-Keeps)

pub with_levels-id :
    (trade : TradeRecord) (p : Option TradingProfile) → (levels_from trade p).id ≡ trade.id
unfolding levels_from with_levels
with_levels-id trade none = refl
with_levels-id trade (some p) = ground arith

renumbered-Keeps : {W A : Type 0} {m : Step W A} {a b : ℕ} → a ≡ b → Keeps a m → Keeps b m
renumbered-Keeps e p = record { keeps = λ j s h. p.keeps j s (rw e h) }

module _ {W : Type 0} (x : Exchange W) (trade : TradeRecord) where
  resolved-Keeps : Keeps trade.id (sync_resolved x (with_resolved_partial_levels x trade))
  unfolding with_resolved_partial_levels
  resolved-Keeps = renumbered-Keeps (with_levels-id trade _) (sync_resolved-Keeps x _)

  -- Watching a trade leaves every other trade as it was, whatever the exchange answers, and also where a
  -- call raises.
  pub sync_trade-others :
      (j : ℕ) (s : MonitorState W)
      → j ≢ trade.id
      → get_trade j (sync_trade x trade s).1.trades ≡ get_trade j s.trades
  unfolding sync_trade apply_time_stop
  sync_trade-others =
      (and_then-Keeps (time_stop_of-Keeps x trade _)
        (λ timed. choose-Keeps timed (done-Keeps trade.id true) resolved-Keeps)).keeps

  next-others :
      (j : ℕ) (rs : SyncReport × MonitorState W)
      → j ≢ trade.id
      → get_trade j (sync_next x trade rs).1.trades ≡ get_trade j rs.1.trades
  unfolding sync_next
  next-others j rs h = ground (arith, sync_trade-others j rs.1 h)

  -- What a report has counted: at most n results beside those of another report.
  next_counts :
      (rs : SyncReport × MonitorState W)
      → let r = rs.0 in
        let r' = (sync_next x trade rs).0 in
        (r'.checked ≡ r.checked) × (r'.closed_count + r'.errors ≤ 1 + (r.closed_count + r.errors))
  unfolding sync_next count_result
  next_counts rs = ground arith

module _ {W : Type 0} (x : Exchange W) where
  each-others :
      (trades : List TradeRecord) (j : ℕ) (rs : SyncReport × MonitorState W)
      → All (λ t. j ≢ t.id) trades
      → get_trade j (sync_each x trades rs).1.trades ≡ get_trade j rs.1.trades
  unfolding sync_each
  each-others [] j rs h = refl
  each-others (t ∷ trades) j rs h =
      each-others trades j (sync_next x t rs) (h.1) ∙ next-others x t j rs (h.0)

  each_counts :
      (trades : List TradeRecord) (rs : SyncReport × MonitorState W)
      → let r = rs.0 in
        let r' = (sync_each x trades rs).0 in
        (r'.checked ≡ r.checked)
        × (r'.closed_count + r'.errors ≤ length trades + (r.closed_count + r.errors))
  unfolding sync_each
  each_counts [] rs = (refl, omega arith)
  each_counts (t ∷ trades) rs =
      omega (arith, each_counts trades (sync_next x t rs), next_counts x t rs)

  -- One pass over the open trades counts at most one closing or one error for each of them, and leaves every
  -- trade that was not open as it was.
  pub sync_open_positions_lem :
      (s : MonitorState W) (j : ℕ)
      → All (λ t. j ≢ t.id) (list_open_trades s.trades)
      → let (r, s') = sync_open_positions x s in
        (r.checked ≡ length (list_open_trades s.trades))
        × (r.closed_count + r.errors ≤ r.checked)
        × (get_trade j s'.trades ≡ get_trade j s.trades)
  unfolding sync_open_positions
  sync_open_positions_lem s j h =
      let trades = list_open_trades s.trades in
      let start : SyncReport = record { checked = length trades; closed_count = 0; errors = 0 } in
      let counts = each_counts trades (start, s) in
      (counts.0, omega (arith, counts), each-others trades j (start, s) h)
