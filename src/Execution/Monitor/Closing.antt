-- ===== src/Execution/Monitor/Closing.antt =====
-- Closing a trade: _finalize_close, _close, _close_with_accumulated, _market_close and _order_closed.
use divap_trader.Base.{
  String, Bool, true, false, Option, none, some, List, [], ◌∷◌, if◌then◌else◌, not, ◌||◌, ◌&&◌,
  str_eq, text_in,
}
use divap_trader.Decimals.{Decimal, ◌⊕◌, ◌⊗◌, is_pos, is_truthy}
use divap_trader.Data.Trades.{
  TradeRecord, CloseReason, is_buy, close_trade, effective_remaining, has_partial_exits,
}
use divap_trader.Execution.Monitor.Steps.{Step, Exchange, done, and_then, call, update, choose}
use divap_trader.Execution.Monitor.Results.{pnl_for, total_pnl_pct, present, present_or, or_zero}

abbrev closed_statuses : List String
closed_statuses = "closed" ∷ "canceled" ∷ "filled" ∷ []

module _ {W : Type 0} (x : Exchange W) where
  unfoldable pub finalize_close :
      TradeRecord → Decimal → Decimal → Decimal → CloseReason → Step W Bool
  finalize_close trade exit_price pnl pct reason =
      and_then (update (λ w. close_trade trade.id exit_price pnl pct reason (x.now w) none))
        (λ u. and_then (call (x.notify_closed trade exit_price pnl pct reason)) (λ v. done true))

  unfoldable pub close : TradeRecord → Decimal → CloseReason → Option Decimal → Step W Bool
  close trade exit_price reason close_quantity =
      let qty = present_or close_quantity (or_zero trade.quantity) in
      let entry = or_zero trade.entry_price in
      let result = pnl_for trade.direction entry exit_price qty in
      choose (not (is_truthy entry) || not (is_truthy qty)) (done false)
        (finalize_close trade exit_price result.0 result.1 reason)

  unfoldable pub close_with_accumulated :
      TradeRecord → Decimal → CloseReason → Option Decimal → Step W Bool
  close_with_accumulated trade exit_price reason close_quantity =
      let qty = present_or close_quantity (effective_remaining trade) in
      let entry = or_zero trade.entry_price in
      let total =
        or_zero trade.realized_pnl_usdt ⊕ (pnl_for trade.direction entry exit_price qty).0 in
      choose (not (is_truthy entry) || not (is_pos qty)) (done false) (
        finalize_close trade exit_price total
          (total_pnl_pct total entry (present_or trade.quantity qty)) reason)

  -- The price of a market order that was filled, or else the ticker's.
  unfoldable pub exit_price_of : TradeRecord → Decimal × Decimal → Step W Decimal
  exit_price_of trade order =
      choose (is_pos order.0) (done order.0) (call (x.fetch_ticker_price trade.symbol))

  unfoldable pub market_close : TradeRecord → CloseReason → Step W Bool
  market_close trade reason =
      let qty =
        if has_partial_exits trade then effective_remaining trade else or_zero trade.quantity in
      choose (not (is_pos qty)) (done false) (
        and_then
          (choose (is_buy trade.direction) (call (x.market_sell trade.symbol qty))
            (call (x.market_buy_quote trade.symbol (qty ⊗ or_zero trade.entry_price))))
          (λ order. and_then (exit_price_of trade order) (λ exit_price.
            choose (has_partial_exits trade && present trade.realized_pnl_usdt)
              (close_with_accumulated trade exit_price reason (some qty))
              (close trade exit_price reason (some qty)))))

  -- The price of an order that the exchange reports as over, where it has one: `closed and exit_price`.
  unfoldable pub order_closed : String → Option String → Step W (Option Decimal)
  order_closed symbol none = done none
  order_closed symbol (some id) = choose (str_eq id "") (done none) (
      and_then (call (x.fetch_order symbol id)) (λ order.
        done (if text_in order.0 closed_statuses && is_pos order.1 then some order.1 else none)))
