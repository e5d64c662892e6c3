-- ===== src/Tasso/Closing.antt =====
-- TassoStopCloser (src/tasso/trade_close.py): the notice that a stop was hit closes the open trade.
use divap_trader.Base.{
  ℕ, String, Bool, true, false, ◌&&◌, Option, none, some, List, [], ◌∷◌, if◌then◌else◌, str_eq,
  text_in,
}
use divap_trader.Decimals.{Decimal, ◌⊕◌, ◌⊗◌, is_pos}
use divap_trader.Data.Trades.{
  TradeRecord, is_buy, is_open, effective_remaining, has_partial_exits, close_trade, tasso_bot_stop,
}
use divap_trader.Execution.Monitor.Results.{pnl_for, total_pnl_pct, present, present_or, or_zero}
use divap_trader.Execution.Trader.Steps.{Step, done, and_then, call, read, query, store, choose}
use divap_trader.Execution.Trader.Ports.{TraderSettings, Order}
use divap_trader.Tasso.Models.{
  TassoSignal, TassoPorts, SignalKind, stop_hit, list_binance_open_trades, first_trade,
}
use divap_trader.Tasso.Revisions.{cancel}

pub data ClosingReason : Type 0 where
  not_stop_hit no_open_trade dry_run zero_quantity bot_stop : ClosingReason

pub record ClosingResult : Type 0 where
  pub closed : Bool
  pub reason : ClosingReason
  pub trade_id : Option ℕ
  pub exit_price : Option Decimal
  pub pnl_usdt : Option Decimal

abbrev pub unclosed : ClosingReason → Option ℕ → ClosingResult
unclosed reason id = record {
  closed = false;
  reason = reason;
  trade_id = id;
  exit_price = none;
  pnl_usdt = none;
}

-- `signal_kind == "stop_hit"` with a symbol
abbrev pub hit_symbol : SignalKind → Option String → Option String
hit_symbol stop_hit (some s) = if str_eq s "" then none else some s
hit_symbol _ _ = none

abbrev pub tasso_profiles : List String
tasso_profiles = "tasso_curto" ∷ "tasso_long" ∷ []

abbrev in_profiles : Option String → Bool
in_profiles none = false
in_profiles (some id) = text_in id tasso_profiles

unfoldable pub is_hit : String → TradeRecord → Bool
is_hit symbol t = str_eq t.symbol symbol && is_open t.status && in_profiles t.profile_id

unfoldable pub close_quantity : TradeRecord → Option Decimal
unfolding effective_remaining has_partial_exits
close_quantity t = if has_partial_exits t then some (effective_remaining t) else t.quantity

-- `not qty or qty <= 0`
abbrev pub positive : Option Decimal → Option Decimal
positive none = none
positive (some q) = if is_pos q then some q else none

-- The result in USDT and its percentage; the results of earlier partials are added.
unfoldable pub closing_result : TradeRecord → Decimal → Decimal → Decimal × Decimal
unfolding pnl_for total_pnl_pct has_partial_exits
closing_result t exit_price qty =
    let entry = or_zero t.entry_price in
    let chunk = pnl_for t.direction entry exit_price qty in
    if has_partial_exits t && present t.realized_pnl_usdt
    then (let total = or_zero t.realized_pnl_usdt ⊕ chunk.0 in
        (total, total_pnl_pct total entry (present_or t.quantity qty)))
    else chunk

module _ {W : Type 0} (ports : TassoPorts W) where
  unfoldable pub close_order : TradeRecord → Decimal → Step W Order
  close_order t qty =
      choose (is_buy t.direction) (call (ports.broker.market_sell t.symbol qty))
        (call (ports.broker.market_buy_quote t.symbol (qty ⊗ or_zero t.entry_price)))

  unfoldable pub exit_of : TradeRecord → Order → Step W Decimal
  exit_of t order =
      choose (is_pos order.price) (done order.price) (call (ports.fetch_ticker_price t.symbol))

  unfoldable pub store_closing : TradeRecord → Decimal → Decimal → Step W ClosingResult
  unfolding closing_result close_trade
  store_closing t qty exit_price =
      let (pnl, pct) = closing_result t exit_price qty in
      and_then (read ports.broker.now) λ at.
        and_then (store (λ db. (tt, close_trade t.id exit_price pnl pct tasso_bot_stop at none db)))
          λ u. done (record {
            closed = true;
            reason = ClosingReason.bot_stop;
            trade_id = some t.id;
            exit_price = some exit_price;
            pnl_usdt = some pnl;
          })

  unfoldable pub close_with : TradeRecord → Option Decimal → Step W ClosingResult
  unfolding close_order exit_of store_closing cancel
  close_with t none = done (unclosed ClosingReason.zero_quantity (some t.id))
  close_with t (some qty) = and_then (cancel ports t.symbol t.stop_order_id) λ u.
      and_then (cancel ports t.symbol t.tp_order_id) λ v.
        and_then (close_order t qty)
          λ order. and_then (exit_of t order) λ exit_price. store_closing t qty exit_price

module _ {W : Type 0} (ports : TassoPorts W) (cfg : TraderSettings) where
  unfoldable pub close_found : Option TradeRecord → Step W ClosingResult
  unfolding close_with close_quantity
  close_found none = done (unclosed ClosingReason.no_open_trade none)
  close_found (some t) =
      choose cfg.trading_dry_run
        (done (record {
          closed = true;
          reason = ClosingReason.dry_run;
          trade_id = some t.id;
          exit_price = none;
          pnl_usdt = none;
        }))
        (close_with ports t (positive (close_quantity t)))

  unfoldable pub close_hit : Option String → Step W ClosingResult
  unfolding close_found list_binance_open_trades first_trade is_hit
  close_hit none = done (unclosed ClosingReason.not_stop_hit none)
  close_hit (some symbol) =
      and_then (query (λ db. first_trade (is_hit symbol) (list_binance_open_trades db)))
        λ found. close_found found

  unfoldable pub apply_stop_hit : TassoSignal → Step W ClosingResult
  unfolding close_hit
  apply_stop_hit signal = close_hit (hit_symbol signal.signal_kind signal.symbol)
