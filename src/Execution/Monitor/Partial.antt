-- ===== src/Execution/Monitor/Partial.antt =====
-- The partial take-profit and the move of the stop to breakeven.
use divap_trader.Base.{
  ℕ, ◌+◌, String, Bool, false, Option, none, some, if◌then◌else◌, not, ◌||◌, ◌&&◌, str_eq, leb,
  length,
}
use divap_trader.Base.Int.{pos, ltb_ℤ, leb_ℤ}
use divap_trader.Decimals.{Decimal, fixed, ◌⊕◌, ◌⊖◌, ◌⊗◌, is_pos, is_truthy}
use divap_trader.Data.Trades.{
  TradeRecord, take_profit, is_buy, effective_remaining, has_partial_exits, record_partial_close,
  update_stop_loss,
}
use divap_trader.Profiles.Models.{TradingProfile}
use divap_trader.Profiles.ExitPolicy.{partial_close_quantity}
use divap_trader.Execution.Monitor.Steps.{Step, Exchange, done, and_then, call, update, choose}
use divap_trader.Execution.Monitor.Results.{pnl_for, total_pnl_pct, present, or_zero}
use divap_trader.Execution.Monitor.Closing.{finalize_close}

-- load_profile(trade.profile_id or "divap")
abbrev pub profile_id_of : Option String → String
profile_id_of none = "divap"
profile_id_of (some id) = if str_eq id "" then "divap" else id

-- The profile moves the stop to breakeven after this number of partials.
abbrev pub moves_stop : Option TradingProfile → ℕ → Bool
moves_stop none n = false
moves_stop (some profile) n =
    let after = profile.exit.move_stop_to_breakeven_after in
    ltb_ℤ (pos 0) after && leb_ℤ after (pos n) && leb_ℤ (pos n) after

-- What a filled order leaves of a partial close.
pub record PartialFill : Type 0 where
  pub exit_price : Decimal
  pub filled : Decimal
  pub realized : Decimal
  pub remaining : Decimal
  pub partials : ℕ

module _ {W : Type 0} (x : Exchange W) where
  unfoldable pub cancel_stop : TradeRecord → Option String → Step W (Unit {0})
  cancel_stop trade none = done tt
  cancel_stop trade (some id) =
      choose (not (str_eq id "") && x.can_cancel) (call (x.cancel_order trade.symbol id)) (done tt)

  -- The new order of a purchase; a sale has none.
  unfoldable pub place_breakeven : TradeRecord → Decimal → Decimal → Step W (Option String)
  place_breakeven trade remaining breakeven =
      choose (is_buy trade.direction)
        (and_then (cancel_stop trade trade.stop_order_id) (λ u.
          call
            (x.place_stop_loss_limit trade.symbol remaining breakeven (breakeven ⊗ fixed 995 3))))
        (done none)

  unfoldable pub move_stop_to_breakeven : TradeRecord → Step W (Unit {0})
  move_stop_to_breakeven trade =
      let breakeven = or_zero trade.entry_price in
      let remaining = effective_remaining trade in
      choose (not (is_truthy breakeven) || not (is_pos remaining)) (done tt) (
        and_then (place_breakeven trade remaining breakeven)
          (λ order. update (λ w. update_stop_loss trade.id breakeven order)))

  -- A price or quantity that the order does not report is the one asked for.
  unfoldable pub fill_of : TradeRecord → Decimal → Decimal → Decimal × Decimal → PartialFill
  fill_of trade price sell_qty order =
      let exit_price = if is_pos order.0 then order.0 else price in
      let filled = if is_pos order.1 then order.1 else sell_qty in
      record {
        exit_price = exit_price;
        filled = filled;
        realized =
            or_zero trade.realized_pnl_usdt
            ⊕ (pnl_for trade.direction (or_zero trade.entry_price) exit_price filled).0;
        remaining = effective_remaining trade ⊖ filled;
        partials = trade.partials_taken + 1;
      }

  unfoldable pub keep_open : TradeRecord → PartialFill → Step W Bool
  keep_open trade f =
      let chunk = (pnl_for trade.direction (or_zero trade.entry_price) f.exit_price f.filled).0 in
      let updated = record trade {
        remaining_quantity = some f.remaining;
        partials_taken = f.partials;
        realized_pnl_usdt = some f.realized;
      } in
      and_then (update (λ w. record_partial_close trade.id f.remaining f.partials f.realized)) (λ u.
        and_then
          (call (
            x.notify_partial trade f.partials (length trade.take_profit_levels) f.exit_price chunk
              f.remaining))
          (λ v.
            and_then
              (choose (moves_stop (x.load_profile (profile_id_of trade.profile_id)) f.partials)
                (move_stop_to_breakeven updated) (done tt))
              (λ z. done false)))

  unfoldable pub after_fill : TradeRecord → PartialFill → Step W Bool
  after_fill trade f =
      choose (leb (length trade.take_profit_levels) f.partials || not (is_pos f.remaining))
        (finalize_close x trade f.exit_price f.realized
          (total_pnl_pct f.realized (or_zero trade.entry_price) (or_zero trade.quantity))
          take_profit)
        (keep_open trade f)

  unfoldable pub execute_partial_take_profit : TradeRecord → Decimal → Step W Bool
  execute_partial_take_profit trade price =
      let sell_qty =
        partial_close_quantity (or_zero trade.quantity) (effective_remaining trade)
          trade.partials_taken (length trade.take_profit_levels) in
      choose
        (not (present trade.entry_price)
          || not (present trade.quantity)
          || not (has_partial_exits trade)
          || not (is_pos sell_qty))
        (done false)
        (and_then
          (choose (is_buy trade.direction) (call (x.market_sell trade.symbol sell_qty))
            (call (x.market_buy_quote trade.symbol (sell_qty ⊗ price))))
          (λ order. after_fill trade (fill_of trade price sell_qty order)))
