-- ===== src/Execution/Monitor/Sync.antt =====
-- The watch over one trade, and over all open trades.
use divap_trader.Base.{
  ℕ, ◌+◌, Bool, true, false, Option, none, some, List, [], ◌∷◌, if◌then◌else◌, not, ◌||◌, ◌&&◌,
  str_eq, get_elem?, length,
}
use divap_trader.Base.Int.{pos, leb_ℤ}
use divap_trader.Decimals.{Decimal, le}
use divap_trader.Data.Trades.{
  TradeRecord, CloseReason, stop_loss, take_profit, time_stop, is_buy, has_partial_exits,
  list_open_trades,
}
use divap_trader.Market.{Candle}
use divap_trader.Profiles.Models.{TradingProfile}
use divap_trader.Profiles.ExitPolicy.{
  should_time_stop, uses_partial_take_profits, compute_partial_take_profit_levels,
}
use divap_trader.Execution.Monitor.Steps.{
  MonitorState, Step, Exchange, done, and_then, call, choose,
}
use divap_trader.Execution.Monitor.Results.{present, or_zero}
use divap_trader.Execution.Monitor.Closing.{
  close, close_with_accumulated, market_close, order_closed,
}
use divap_trader.Execution.Monitor.Partial.{execute_partial_take_profit, profile_id_of}

-- The trade with the levels of the profile, where they are used and can be computed.
unfoldable pub with_levels : TradeRecord → TradingProfile → TradeRecord
with_levels trade profile =
    if not (uses_partial_take_profits profile)
    then trade
    else if not (present trade.entry_price) || not (present trade.take_profit_price)
    then trade
    else record trade {
      take_profit_levels =
          compute_partial_take_profit_levels (or_zero trade.entry_price)
            (or_zero trade.take_profit_price) trade.direction profile.exit.partial_take_profits;
      remaining_quantity =
          if present trade.remaining_quantity then trade.remaining_quantity else trade.quantity;
    }

unfoldable pub levels_from : TradeRecord → Option TradingProfile → TradeRecord
levels_from trade none = trade
levels_from trade (some profile) =
    if has_partial_exits trade then trade else with_levels trade profile

-- Whether a price has reached a level, for a purchase from below and for a sale from above.
unfoldable pub reached : Bool → Decimal → Decimal → Bool
reached buys price level = if buys then le level price else le price level

unfoldable pub stopped : Bool → Decimal → Decimal → Bool
stopped buys price level = if buys then le price level else le level price

module _ {W : Type 0} (x : Exchange W) where
  unfoldable pub with_resolved_partial_levels : TradeRecord → TradeRecord
  with_resolved_partial_levels trade =
      levels_from trade (x.load_profile (profile_id_of trade.profile_id))

  unfoldable pub close_on_time : TradeRecord → TradingProfile → Option (List Candle) → Step W Bool
  close_on_time trade profile none = done false
  close_on_time trade profile (some candles) =
      choose (should_time_stop trade profile candles) (market_close x trade time_stop) (done false)

  unfoldable pub time_stop_of : TradeRecord → Option TradingProfile → Step W Bool
  time_stop_of trade none = done false
  time_stop_of trade (some profile) =
      choose (leb_ℤ profile.exit.time_stop_candles (pos 0)) (done false)
        (and_then (call (x.fetch_ohlcv trade.symbol trade.timeframe)) (close_on_time trade profile))

  unfoldable pub apply_time_stop : TradeRecord → Step W Bool
  apply_time_stop trade = time_stop_of trade (x.load_profile (profile_id_of trade.profile_id))

  unfoldable pub close_at : TradeRecord → CloseReason → Option Decimal → Step W Bool → Step W Bool
  close_at trade reason none go_on = go_on
  close_at trade reason (some exit_price) go_on = close x trade exit_price reason none

  unfoldable pub close_accumulated_at : TradeRecord → Option Decimal → Step W Bool → Step W Bool
  close_accumulated_at trade none go_on = go_on
  close_accumulated_at trade (some exit_price) go_on =
      close_with_accumulated x trade exit_price stop_loss none

  -- The ticker's price against the stop and, where it is not hit, what follows.
  unfoldable pub watch_price : TradeRecord → (Decimal → Step W Bool) → Step W Bool
  watch_price trade follow = and_then (call (x.fetch_ticker_price trade.symbol)) (λ price.
      choose (stopped (is_buy trade.direction) price (or_zero trade.stop_loss_price))
        (market_close x trade stop_loss) (follow price))

  unfoldable pub take_whole : TradeRecord → Decimal → Step W Bool
  take_whole trade price =
      choose (reached (is_buy trade.direction) price (or_zero trade.take_profit_price))
        (market_close x trade take_profit) (done false)

  unfoldable pub take_level : TradeRecord → Decimal → Option Decimal → Step W Bool
  take_level trade price none = done false
  take_level trade price (some target) =
      choose (reached (is_buy trade.direction) price target)
        (execute_partial_take_profit x trade price) (done false)

  abbrev pub is_priced : TradeRecord → Bool
  is_priced trade =
      present trade.entry_price && present trade.stop_loss_price && present trade.take_profit_price

  unfoldable pub watch_whole : TradeRecord → Step W Bool
  watch_whole trade = choose (is_priced trade) (watch_price trade (take_whole trade)) (done false)

  unfoldable pub sync_whole_buy : TradeRecord → Step W Bool
  sync_whole_buy trade = and_then (order_closed x trade.symbol trade.tp_order_id) (λ taken.
      close_at trade take_profit taken (
        and_then (order_closed x trade.symbol trade.stop_order_id)
          (λ hit. close_at trade stop_loss hit (watch_whole trade))))

  unfoldable pub sync_partials : TradeRecord → Step W Bool
  sync_partials trade = and_then (order_closed x trade.symbol trade.stop_order_id) (λ hit.
      close_accumulated_at trade hit (
        choose (is_priced trade && present trade.quantity)
          (watch_price trade (λ price.
            take_level trade price (get_elem? trade.take_profit_levels trade.partials_taken)))
          (done false)))

  unfoldable pub sync_buy_trade : TradeRecord → Step W Bool
  sync_buy_trade trade =
      choose (has_partial_exits trade) (sync_partials trade) (sync_whole_buy trade)

  unfoldable pub sync_sell_trade : TradeRecord → Step W Bool
  sync_sell_trade trade = choose (has_partial_exits trade) (sync_partials trade) (watch_whole trade)

  unfoldable pub sync_resolved : TradeRecord → Step W Bool
  sync_resolved trade =
      choose (is_buy trade.direction) (sync_buy_trade trade) (sync_sell_trade trade)

  unfoldable pub sync_trade : TradeRecord → Step W Bool
  sync_trade trade =
      and_then (apply_time_stop trade)
        (λ timed. choose timed (done true) (sync_resolved (with_resolved_partial_levels trade)))

-- What sync_open_positions reports.
pub record SyncReport : Type 0 where
  pub checked : ℕ
  pub closed_count : ℕ
  pub errors : ℕ

unfoldable pub count_result : Option Bool → SyncReport → SyncReport
count_result none r = record r { errors = r.errors + 1 }
count_result (some true) r = record r { closed_count = r.closed_count + 1 }
count_result (some false) r = r

abbrev pub is_watched : TradeRecord → Bool
is_watched trade = str_eq trade.market "crypto" && str_eq trade.venue "binance"

module _ {W : Type 0} (x : Exchange W) where
  -- An exception is counted, and the next trade follows.
  unfoldable pub sync_next : TradeRecord → SyncReport × MonitorState W → SyncReport × MonitorState W
  sync_next trade (r, s) =
      if not (is_watched trade)
      then (r, s)
      else let (result, s') = sync_trade x trade s in (count_result result r, s')

  unfoldable pub sync_each :
      List TradeRecord → SyncReport × MonitorState W → SyncReport × MonitorState W
  sync_each [] rs = rs
  sync_each (trade ∷ trades) rs = sync_each trades (sync_next trade rs)

  unfoldable pub sync_open_positions : MonitorState W → SyncReport × MonitorState W
  sync_open_positions s =
      let trades = list_open_trades s.trades in
      sync_each trades (record { checked = length trades; closed_count = 0; errors = 0 }, s)
