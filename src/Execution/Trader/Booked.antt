-- ===== src/Execution/Trader/Booked.antt =====
-- A trade is in the table exactly when it was executed.
use divap_trader.Base.{◌≡◌, refl, ap, true, false, Option, none, some, List, ◌⊎◌, inl, inr}
use divap_trader.Decimals.{Decimal}
use divap_trader.Data.Trades.{Trades, TradeRecord, create_trade}
use divap_trader.Market.{DivapSignal}
use divap_trader.Profiles.Models.{ProfileExecution, TradingProfile}
use divap_trader.Execution.Trader.Steps.{
  Step, Triple, With, done, store, and_then-Triple, done-Triple, choose-Triple, call-Triple,
  read-Triple, on_bankroll-Triple, raise-Triple, catching-Triple, and_then,
}
use divap_trader.Execution.Trader.Ports.{
  Broker, Order, TraderSettings, Venue, Reason, TradeExecutionResult, refusal,
}
use divap_trader.Execution.Trader.Orders.{
  Booking, Fill, row_of, execution_of, active_execution, given_execution, resolve_quote_amount,
  book, place_target, protect_buy, execute_buy, book_sell, execute_sell, execute_live, are_given,
  has_partials,
}
use divap_trader.Execution.Trader.Execute.{
  Attempt, simulate, open_trade, open_first, open_resolved, open_with,
}

-- The new row of an executed trade, of the signal that it executes.
pub record IsStored (signal : DivapSignal) (db : Trades) (r : TradeExecutionResult) (after : Trades)
    : Type 0 where
  pub executed_true : r.executed ≡ true
  pub given_id : r.trade_id ≡ some db.next_id
  pub row : TradeRecord
  pub of_symbol : row.symbol ≡ signal.symbol
  pub of_timeframe : row.timeframe ≡ signal.timeframe
  pub of_direction : row.direction ≡ signal.direction
  pub stored : after ≡ (create_trade row db).1

pub record IsRefused (db : Trades) (r : TradeExecutionResult) (after : Trades) : Type 0 where
  pub executed_false : r.executed ≡ false
  pub no_id : r.trade_id ≡ none
  pub kept : after ≡ db

abbrev pub Booked : DivapSignal → Trades → TradeExecutionResult → Trades → Type 0
Booked signal db r after = IsStored signal db r after ⊎ IsRefused db r after

module _ {W : Type 0} (db : Trades) (signal : DivapSignal) where
  -- A step that ends in an execution or a refusal.
  abbrev pub Books : Step W TradeExecutionResult → Type 0
  Books m = Triple (With db) m (λ r s. Booked signal db r s.trades) (With db)

  pub refusal-Books : (reason : Reason) → Books (done (refusal signal reason))
  unfolding refusal
  refusal-Books reason =
      done-Triple _ λ s h. inr (record { executed_false = refl; no_id = refl; kept = h })

module _ {W : Type 0} (ports : Broker W) (db : Trades) (signal : DivapSignal) where
  active-Triple : Triple (With db) (active_execution ports) (λ a s. With db s) (With db)
  unfolding active_execution
  active-Triple = and_then-Triple (read-Triple _) λ p.
      and_then-Triple (read-Triple _)
        λ q. and_then-Triple (on_bankroll-Triple _) λ x. done-Triple _ λ s h. h

  given-Triple :
      (e : Option ProfileExecution)
      → Triple (With db) (given_execution ports e) (λ a s. With db s) (With db)
  unfolding given_execution
  given-Triple none = active-Triple
  given-Triple (some e) = done-Triple e λ s h. h

  quote-Triple :
      (e : Option ProfileExecution)
      → Triple (With db) (resolve_quote_amount ports signal e) (λ a s. With db s) (With db)
  unfolding resolve_quote_amount
  quote-Triple e = and_then-Triple (given-Triple e) λ x.
      and_then-Triple (call-Triple _)
        λ y. and_then-Triple (call-Triple _) λ z. done-Triple _ λ s h. h

  pub book-Books :
      (b : Booking) (reason : Reason) (f : Fill) → Books db signal (book ports signal b reason f)
  unfolding book store execution_of create_trade row_of and_then done
  book-Books b reason f = and_then-Triple (read-Triple _) λ at. record {
    holds = λ s h. inl (record {
      executed_true = refl;
      given_id = ap (λ d. some d.next_id) h;
      row = row_of signal b f at;
      of_symbol = refl;
      of_timeframe = refl;
      of_direction = refl;
      stored = ap (λ d. (create_trade (row_of signal b f at) d).1) h;
    });
  }

  target-Triple :
      (profile : Option TradingProfile) (given : List Decimal) (q t : Decimal)
      → Triple
          (With db)
          (place_target ports profile given signal.symbol q t)
          (λ a s. With db s)
          (With db)
  unfolding place_target
  target-Triple profile given q t =
      choose-Triple (are_given given) (λ e. done-Triple _ λ s h. h)
        λ e. choose-Triple (has_partials profile) (λ e. done-Triple _ λ s h. h) λ e. call-Triple _

  protect-Books :
      (b : Booking) (quote take_profit : Decimal) (given : List Decimal) (order : Order)
      → Books db signal (protect_buy ports signal b quote take_profit given order)
  unfolding protect_buy
  protect-Books b quote take_profit given order =
      and_then-Triple (call-Triple _)
        λ stop. and_then-Triple (target-Triple _ given _ _) λ tp. book-Books b _ _

  buy-Books :
      (b : Booking) (t : Decimal) (e : ProfileExecution) (given : List Decimal)
      → Books db signal (execute_buy ports signal b t e given)
  unfolding execute_buy
  buy-Books b t e given = and_then-Triple (call-Triple _) λ usdt.
      and_then-Triple (quote-Triple (some e)) λ quote. and_then-Triple (call-Triple _) λ notional.
        choose-Triple _ (λ h. refusal-Books db signal _)
          λ h. and_then-Triple (call-Triple _) λ order.
            choose-Triple _ (λ h. refusal-Books db signal _)
              λ h. protect-Books b quote t given order

  sell-Books :
      (b : Booking) (t : Decimal) (e : ProfileExecution) (given : List Decimal)
      → Books db signal (execute_sell ports signal b t e given)
  unfolding execute_sell book_sell
  sell-Books b t e given = and_then-Triple (quote-Triple (some e)) λ quote.
      and_then-Triple (call-Triple _) λ balance. and_then-Triple (call-Triple _) λ notional.
        choose-Triple _ (λ h. refusal-Books db signal _)
          λ h.
            and_then-Triple (call-Triple _)
              λ order. choose-Triple _ (λ h. refusal-Books db signal _) λ h. book-Books b _ _

  live-Books :
      (b : Booking) (t : Decimal) (e : ProfileExecution) (given : List Decimal)
      → Books db signal (execute_live ports signal b t e given)
  unfolding execute_live
  live-Books b t e given = choose-Triple _ (λ h. buy-Books b t e given) λ h. sell-Books b t e given

module _ {W : Type 0} (ports : Broker W) (cfg : TraderSettings) (venue : Venue) (db : Trades)
    (a : Attempt) where
  open-Books : (t : Decimal) → Books db a.signal (open_trade ports cfg venue a t)
  unfolding open_trade simulate refusal
  open-Books t =
      choose-Triple _
        (λ h.
          and_then-Triple (quote-Triple ports db a.signal (some a.execution))
            λ quote. book-Books ports db a.signal _ _ _)
        λ h.
          catching-Triple _
            (λ e s k. inr (record { executed_false = refl; no_id = refl; kept = k }))
            (live-Books ports db a.signal _ t a.execution a.given_levels)

  first-Books : (t : Option Decimal) → Books db a.signal (open_first ports cfg venue a t)
  unfolding open_first
  first-Books none = raise-Triple λ s h. h
  first-Books (some t) = open-Books t

  resolved-Books : (t : Option Decimal) → Books db a.signal (open_resolved ports cfg venue a t)
  unfolding open_resolved
  resolved-Books none = refusal-Books db a.signal _
  resolved-Books (some t) = open-Books t

  pub open_with-Books :
      (profile : Option TradingProfile) → Books db a.signal (open_with ports cfg venue a profile)
  unfolding open_with
  open_with-Books none = first-Books _
  open_with-Books (some profile) = resolved-Books _
