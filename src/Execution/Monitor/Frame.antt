-- ===== src/Execution/Monitor/Frame.antt =====
-- Closing a trade, in whole or in part, touches no other trade.
use divap_trader.Base.{
  ℕ, String, true, false, Option, none, some, List, [], ◌∷◌, ◌≡◌, ◌≢◌, refl, arith,
}
use divap_trader.Decimals.{Decimal}
use divap_trader.Data.Trades.{
  TradeRecord, CloseReason, take_profit, update_where, update_rows, find_row, get_trade,
  close_trade, record_partial_close, update_stop_loss,
}
use divap_trader.Execution.Monitor.Steps.{
  Exchange, Keeps, done-Keeps, and_then-Keeps, call-Keeps, choose-Keeps, update,
}
use divap_trader.Execution.Monitor.Closing.{
  finalize_close, close, close_with_accumulated, exit_price_of, market_close,
}
use divap_trader.Execution.Monitor.Partial.{
  PartialFill, cancel_stop, place_breakeven, move_stop_to_breakeven, keep_open, after_fill,
  execute_partial_take_profit,
}

-- The change keeps the id of the row.
find_row-update_rows :
    (k j : ℕ) (f : TradeRecord → TradeRecord) (rows : List TradeRecord)
    → ((t : TradeRecord) → (f t).id ≡ t.id)
    → j ≢ k
    → find_row j (update_rows k f rows) ≡ find_row j rows
unfolding find_row update_rows
find_row-update_rows k j f [] e h = refl
find_row-update_rows k j f (t ∷ rows) e h = ground (arith, find_row-update_rows k j f rows e h, e t)

module _ {W : Type 0} (k : ℕ) where
  pub update-Keeps :
      (g : W → TradeRecord → TradeRecord)
      → ((w : W) (t : TradeRecord) → (g w t).id ≡ t.id)
      → Keeps k (update (λ w. update_where k (g w)))
  unfolding update update_where get_trade
  update-Keeps g e = record {
    keeps = λ j s h. find_row-update_rows k j (g s.world) s.trades.rows (e s.world) h;
  }

module _ {W : Type 0} (x : Exchange W) (trade : TradeRecord) where
  pub finalize_close-Keeps :
      (exit_price pnl pct : Decimal) (reason : CloseReason)
      → Keeps trade.id (finalize_close x trade exit_price pnl pct reason)
  unfolding finalize_close close_trade
  finalize_close-Keeps exit_price pnl pct reason =
      and_then-Keeps (update-Keeps trade.id _ (λ w t. refl))
        (λ u. and_then-Keeps (call-Keeps trade.id _) (λ v. done-Keeps trade.id true))

  pub close-Keeps :
      (price : Decimal) (reason : CloseReason) (q : Option Decimal)
      → Keeps trade.id (close x trade price reason q)
  unfolding close
  close-Keeps price reason q =
      choose-Keeps _ (done-Keeps trade.id false) (finalize_close-Keeps price _ _ reason)

  pub accumulated-Keeps :
      (price : Decimal) (reason : CloseReason) (q : Option Decimal)
      → Keeps trade.id (close_with_accumulated x trade price reason q)
  unfolding close_with_accumulated
  accumulated-Keeps price reason q =
      choose-Keeps _ (done-Keeps trade.id false) (finalize_close-Keeps price _ _ reason)

  exit_price_of-Keeps : (order : Decimal × Decimal) → Keeps trade.id (exit_price_of x trade order)
  unfolding exit_price_of
  exit_price_of-Keeps order = choose-Keeps _ (done-Keeps trade.id order.0) (call-Keeps trade.id _)

  pub market_close-Keeps : (reason : CloseReason) → Keeps trade.id (market_close x trade reason)
  unfolding market_close
  market_close-Keeps reason = choose-Keeps _ (done-Keeps trade.id false) (
      and_then-Keeps (choose-Keeps _ (call-Keeps trade.id _) (call-Keeps trade.id _)) (λ order.
        and_then-Keeps (exit_price_of-Keeps order) (λ price.
          choose-Keeps _ (accumulated-Keeps price reason _) (close-Keeps price reason _))))

  cancel_stop-Keeps : (order : Option String) → Keeps trade.id (cancel_stop x trade order)
  unfolding cancel_stop
  cancel_stop-Keeps none = done-Keeps trade.id tt
  cancel_stop-Keeps (some id) = choose-Keeps _ (call-Keeps trade.id _) (done-Keeps trade.id tt)

  place_breakeven-Keeps :
      (remaining price : Decimal) → Keeps trade.id (place_breakeven x trade remaining price)
  unfolding place_breakeven
  place_breakeven-Keeps remaining price =
      choose-Keeps _
        (and_then-Keeps (cancel_stop-Keeps trade.stop_order_id) (λ u. call-Keeps trade.id _))
        (done-Keeps trade.id none)

  move_stop-Keeps : Keeps trade.id (move_stop_to_breakeven x trade)
  unfolding move_stop_to_breakeven update_stop_loss
  move_stop-Keeps =
      choose-Keeps _ (done-Keeps trade.id tt) (
        and_then-Keeps (place_breakeven-Keeps _ _) (λ order. update-Keeps trade.id _ (λ w t. refl)))

module _ {W : Type 0} (x : Exchange W) (trade : TradeRecord) where
  keep_open-Keeps : (f : PartialFill) → Keeps trade.id (keep_open x trade f)
  unfolding keep_open record_partial_close
  keep_open-Keeps f = and_then-Keeps (update-Keeps trade.id _ (λ w t. refl)) (λ u.
      and_then-Keeps (call-Keeps trade.id _) (λ v.
        and_then-Keeps (choose-Keeps _ (move_stop-Keeps x _) (done-Keeps trade.id tt))
          (λ z. done-Keeps trade.id false)))

  after_fill-Keeps : (f : PartialFill) → Keeps trade.id (after_fill x trade f)
  unfolding after_fill
  after_fill-Keeps f =
      choose-Keeps _ (finalize_close-Keeps x trade _ _ _ take_profit) (keep_open-Keeps f)

  pub execute_partial-Keeps :
      (price : Decimal) → Keeps trade.id (execute_partial_take_profit x trade price)
  unfolding execute_partial_take_profit
  execute_partial-Keeps price = choose-Keeps _ (done-Keeps trade.id false) (
      and_then-Keeps (choose-Keeps _ (call-Keeps trade.id _) (call-Keeps trade.id _))
        (λ order. after_fill-Keeps _))
