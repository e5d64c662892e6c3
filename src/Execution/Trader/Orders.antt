-- ===== src/Execution/Trader/Orders.antt =====
-- The size of an order and the live orders: _resolve_quote_amount, _execute_buy, _execute_sell and
-- _execute_live.
use divap_trader.Base.{
  ℕ, String, Bool, true, false, Option, none, some, List, [], ◌∷◌, if◌then◌else◌, not, get_last,
}
use divap_trader.Decimals.{
  Decimal, whole, fixed, ◌⊗◌, lt, is_pos, is_truthy, maximum, minimum, to_cents,
}
use divap_trader.Data.Trades.{TradeRecord, Status, opened, Direction, is_buy, create_trade, Instant}
use divap_trader.Market.{
  Confidence, medium, high, DivapSignal, MarketContext, ContextVerdict, confirm, caution, reject,
}
use divap_trader.Profiles.Models.{ProfileExecution, TradingProfile}
use divap_trader.Profiles.ExitPolicy.{uses_partial_take_profits, compute_partial_take_profit_levels}
use divap_trader.Execution.Risk.{calculate_quote_amount, base_quantity_from_quote}
use divap_trader.Bankroll.Context.{get_active_execution_profile}
use divap_trader.Execution.Trader.Steps.{
  Step, done, and_then, call, read, on_bankroll, store, choose,
}
use divap_trader.Execution.Trader.Ports.{
  Reason, Order, Broker, Place, TradeExecutionResult, refusal,
}

abbrev pub min_order_usdt : Decimal
min_order_usdt = whole 10

-- The amount for a balance and the exchange's least order.
unfoldable pub quote_for : Decimal → Decimal → DivapSignal → ProfileExecution → Decimal
quote_for usdt notional signal execution =
    let amount = calculate_quote_amount usdt signal.timeframe signal.confidence in
    let quote = to_cents (amount ⊗ execution.allocation_multiplier) in
    let min_notional = maximum notional min_order_usdt in
    if is_pos quote then maximum quote min_notional else whole 0

-- The row that a purchase, a sale or a simulation stores.
pub record Booking : Type 0 where
  pub alert_id : Option ℕ
  pub context : Option MarketContext
  pub profile_id : String
  pub goal_protected : Bool
  pub trading_mode : String
  pub place : Place

pub record Fill : Type 0 where
  pub status : Status
  pub entry_price : Decimal
  pub quantity : Decimal
  pub quote_amount : Decimal
  pub take_profit : Decimal
  pub exchange_order_id : Option String
  pub stop_order_id : Option String
  pub tp_order_id : Option String
  pub levels : List Decimal

abbrev pub confidence_text : Confidence → String
confidence_text medium = "medium"
confidence_text high = "high"

abbrev pub verdict_text : ContextVerdict → String
verdict_text confirm = "confirm"
verdict_text caution = "caution"
verdict_text reject = "reject"
verdict_text ContextVerdict.unknown = "unknown"

abbrev pub map_option : {A B : Type 0} → (A → B) → Option A → Option B
map_option f none = none
map_option f (some a) = some (f a)

abbrev pub quantity_if_levels : List Decimal → Decimal → Option Decimal
quantity_if_levels [] q = none
quantity_if_levels (l ∷ ls) q = some q

-- The arguments of create_trade; the table gives the id.
unfoldable pub row_of : DivapSignal → Booking → Fill → Instant → TradeRecord
row_of signal b f at = record {
  id = 0;
  alert_id = b.alert_id;
  symbol = signal.symbol;
  timeframe = signal.timeframe;
  direction = signal.direction;
  confidence = confidence_text signal.confidence;
  status = f.status;
  entry_price = some f.entry_price;
  exit_price = none;
  stop_loss_price = some signal.stop_price;
  take_profit_price = some f.take_profit;
  quantity = some f.quantity;
  quote_amount = some f.quote_amount;
  pnl_usdt = none;
  pnl_pct = none;
  fees_usdt = none;
  context_verdict = map_option (λ c. verdict_text c.context_verdict) b.context;
  context_score = map_option (λ c. c.context_score) b.context;
  exchange_order_id = f.exchange_order_id;
  stop_order_id = f.stop_order_id;
  tp_order_id = f.tp_order_id;
  close_reason = none;
  trading_mode = b.trading_mode;
  opened_at = some at;
  closed_at = none;
  profile_id = some b.profile_id;
  goal_protected = b.goal_protected;
  market = b.place.market;
  venue = b.place.venue;
  take_profit_levels = f.levels;
  remaining_quantity = quantity_if_levels f.levels f.quantity;
  partials_taken = 0;
  realized_pnl_usdt = none;
}

unfoldable pub execution_of : DivapSignal → Reason → Fill → ℕ → TradeExecutionResult
execution_of signal reason f trade_id = record {
  trade_id = some trade_id;
  executed = true;
  reason = reason;
  symbol = signal.symbol;
  direction = signal.direction;
  quote_amount = some f.quote_amount;
  entry_price = some f.entry_price;
  quantity = some f.quantity;
}

-- The levels for a trade: the given ones, those of a profile with partial exits, or none.
unfoldable pub levels_for :
    Option TradingProfile → List Decimal → Decimal → Decimal → Direction → List Decimal
levels_for profile (l ∷ ls) entry take_profit d = l ∷ ls
levels_for none [] entry take_profit d = []
levels_for (some profile) [] entry take_profit d =
    if uses_partial_take_profits profile
    then compute_partial_take_profit_levels entry take_profit d profile.exit.partial_take_profits
    else []

abbrev pub has_partials : Option TradingProfile → Bool
has_partials none = false
has_partials (some profile) = uses_partial_take_profits profile

-- `take_profit_levels[-1]`, where levels are given
abbrev pub final_target : List Decimal → Decimal → Decimal
final_target [] take_profit = take_profit
final_target (l ∷ ls) take_profit = get_last l ls

abbrev pub are_given : List Decimal → Bool
are_given [] = false
are_given (l ∷ ls) = true

module _ {W : Type 0} (ports : Broker W) where
  unfoldable pub active_execution : Step W ProfileExecution
  active_execution = and_then (read ports.current_period_month) λ period.
      and_then (read ports.current_period_month) λ period_later.
        and_then (on_bankroll (get_active_execution_profile ports.load_profile period period_later))
          λ selection. done (selection.1.0)

  unfoldable pub given_execution : Option ProfileExecution → Step W ProfileExecution
  unfolding active_execution
  given_execution none = active_execution
  given_execution (some execution) = done execution

  unfoldable pub resolve_quote_amount : DivapSignal → Option ProfileExecution → Step W Decimal
  unfolding given_execution
  resolve_quote_amount signal execution = and_then (given_execution execution) λ chosen.
      and_then (call ports.get_usdt_balance) λ usdt.
        and_then (call (ports.min_notional signal.symbol))
          λ notional. done (quote_for usdt notional signal chosen)

  unfoldable pub book : DivapSignal → Booking → Reason → Fill → Step W TradeExecutionResult
  book signal b reason f = and_then (read ports.now) λ at.
      and_then (store (create_trade (row_of signal b f at)))
        λ trade_id. done (execution_of signal reason f trade_id)

  -- A take-profit order is placed only where the trade has no levels.
  unfoldable pub place_target :
      Option TradingProfile → List Decimal → String → Decimal → Decimal → Step W (Option String)
  place_target profile given symbol quantity take_profit = choose (are_given given) (done none) (
      choose (has_partials profile) (done none)
        (call (ports.place_take_profit_limit symbol quantity take_profit)))

  unfoldable pub protect_buy :
      DivapSignal → Booking → Decimal → Decimal → List Decimal → Order → Step W TradeExecutionResult
  unfolding book place_target
  protect_buy signal b quote take_profit given order =
      and_then
        (call (
          ports.place_stop_loss_limit signal.symbol order.filled signal.stop_price
            (signal.stop_price ⊗ fixed 995 3)))
        λ stop_order.
          and_then
            (place_target (ports.load_profile b.profile_id) given signal.symbol order.filled
              take_profit)
            λ tp_order. book signal b Reason.ok (record {
              status = opened;
              entry_price = order.price;
              quantity = order.filled;
              quote_amount = if is_truthy order.cost then order.cost else quote;
              take_profit = final_target given take_profit;
              exchange_order_id = some order.order_id;
              stop_order_id = stop_order;
              tp_order_id = tp_order;
              levels =
                  levels_for (ports.load_profile b.profile_id) given order.price take_profit
                    signal.direction;
            })

  unfoldable pub execute_buy :
      DivapSignal
      → Booking
      → Decimal
      → ProfileExecution
      → List Decimal
      → Step W TradeExecutionResult
  unfolding resolve_quote_amount protect_buy
  execute_buy signal b take_profit execution given = and_then (call ports.get_usdt_balance) λ usdt.
      and_then (resolve_quote_amount signal (some execution)) λ quote.
        and_then (call (ports.min_notional signal.symbol)) λ notional.
          choose (lt quote (maximum notional min_order_usdt))
            (done (refusal signal Reason.insufficient_balance))
            (and_then (call (ports.market_buy_quote signal.symbol quote)) λ order.
              choose (not (is_pos order.filled)) (done (refusal signal Reason.zero_fill))
                (protect_buy signal b quote take_profit given order))

  unfoldable pub book_sell :
      DivapSignal → Booking → Decimal → List Decimal → Order → Step W TradeExecutionResult
  unfolding book
  book_sell signal b take_profit given order = book signal b Reason.ok (record {
    status = opened;
    entry_price = order.price;
    quantity = order.filled;
    quote_amount = order.price ⊗ order.filled;
    take_profit = final_target given take_profit;
    exchange_order_id = some order.order_id;
    stop_order_id = none;
    tp_order_id = none;
    levels =
        levels_for (ports.load_profile b.profile_id) given order.price take_profit signal.direction;
  })

  unfoldable pub execute_sell :
      DivapSignal
      → Booking
      → Decimal
      → ProfileExecution
      → List Decimal
      → Step W TradeExecutionResult
  unfolding resolve_quote_amount book_sell
  execute_sell signal b take_profit execution given =
      and_then (resolve_quote_amount signal (some execution)) λ quote_equiv.
        and_then (call (ports.get_base_balance signal.symbol)) λ base_balance.
          let wanted =
            minimum (base_quantity_from_quote quote_equiv signal.entry_price) base_balance in
          and_then (call (ports.min_notional signal.symbol)) λ notional.
            choose (lt (wanted ⊗ signal.entry_price) (maximum notional min_order_usdt))
              (done (refusal signal Reason.insufficient_base_balance))
              (and_then (call (ports.market_sell signal.symbol wanted)) λ order.
                choose (not (is_pos order.filled)) (done (refusal signal Reason.zero_fill))
                  (book_sell signal b take_profit given order))

  unfoldable pub execute_live :
      DivapSignal
      → Booking
      → Decimal
      → ProfileExecution
      → List Decimal
      → Step W TradeExecutionResult
  unfolding execute_buy execute_sell
  execute_live signal b take_profit execution given =
      choose (is_buy signal.direction) (execute_buy signal b take_profit execution given)
        (execute_sell signal b take_profit execution given)
