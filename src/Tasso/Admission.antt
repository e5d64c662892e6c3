-- ===== src/Tasso/Admission.antt =====
-- A new signal of the channel under the rules of the trade executor.
use divap_trader.Base.{◌≡◌, refl, Bool, true, false, Option, none, some, arith, not}
use divap_trader.Decimals.{Decimal, is_pos}
use divap_trader.Execution.Trader.Steps.{
  Step, Answer, returned, exchange_error, raised, TraderState, next, and_then, read, choose, done,
}
use divap_trader.Execution.Trader.Ports.{TraderSettings, Venue, TradeExecutionResult}
use divap_trader.Execution.Trader.Execute.{try_execute}
use divap_trader.Execution.Trader.Outcomes.{is_executed}
use divap_trader.Execution.Trader.Entry.{IsAdmitted, try_execute-IsAdmitted}
use divap_trader.Tasso.Models.{TassoSignal, TassoPorts, build_divap_signal, symbol_or_default}
use divap_trader.Tasso.Orders.{
  TassoReason, TassoResult, unexecuted, result_of, trade_at, trade_with, tasso_execute,
}

-- A new signal was executed at the positive price that was fetched for its symbol, with trading on and outside
-- of a dry run, and the signal built for that price was admitted by the trade executor for the signal's
-- profile, in the state after the fetch.
pub record IsTaken {W : Type 0} (ports : TassoPorts W) (cfg : TraderSettings) (signal : TassoSignal)
    (s : TraderState W) : Type 0 where
  pub switched_on : cfg.gate.trading_enabled ≡ true
  pub is_live : cfg.trading_dry_run ≡ false
  pub price : Decimal
  pub fetched : (ports.fetch_last (symbol_or_default signal.symbol) s.world).0 ≡ some price
  pub price_positive : is_pos price ≡ true
  pub admitted :
      IsAdmitted ports.broker cfg
        (build_divap_signal signal price)
        none
        (some signal.profile_id)
        (record s { world = (ports.fetch_last (symbol_or_default signal.symbol) s.world).1 })

negated : (b : Bool) → not b ≡ false → b ≡ true
negated b h = ground arith

abbrev pub was_executed : Answer TassoResult → Bool
was_executed (returned r) = r.executed
was_executed (exchange_error e) = false
was_executed raised = false

module _ {W : Type 0} where
  -- Past a refusal
  otherwise :
      (b : Bool) (reason : TassoReason) (n : Step W TassoResult) (s : TraderState W)
      → was_executed (choose b (done (unexecuted reason)) n s).0 ≡ true
      → (b ≡ false) × (was_executed (n s).0 ≡ true)
  unfolding choose done
  otherwise true reason n s e = ground arith
  otherwise false reason n s e = (refl, e)

  executed_below :
      (r : Answer TradeExecutionResult × TraderState W)
      → was_executed (next r (λ x. done (result_of x))).0 ≡ true
      → is_executed r.0 ≡ true
  unfolding next done
  executed_below (returned x, t) e = e
  executed_below (exchange_error x, t) e = ground arith
  executed_below (raised, t) e = ground arith

module _ {W : Type 0} (ports : TassoPorts W) (cfg : TraderSettings) (signal : TassoSignal) where
  priced :
      (last : Option Decimal) (t : TraderState W)
      → was_executed (trade_with ports cfg signal last t).0 ≡ true
      → (price : Decimal) × ((last ≡ some price)
          × ((is_pos price ≡ true)
              × IsAdmitted ports.broker cfg
                  (build_divap_signal signal price)
                  none
                  (some signal.profile_id)
                  t))
  unfolding trade_with trade_at and_then done
  priced none t e = ground arith
  priced (some current) t e =
      let (positive, executed) = otherwise _ _ _ t e in
      let tried =
        try_execute ports.broker cfg Venue.binance (build_divap_signal signal current) none none
          (some signal.profile_id) signal.take_profit_levels t in
      (
        current,
        (
          refl,
          (
            negated _ positive,
            try_execute-IsAdmitted ports.broker cfg Venue.binance
                (build_divap_signal signal current) none none signal.take_profit_levels
                (some signal.profile_id) t (executed_below tried executed),
          ),
        ),
      )

  -- A signal of the channel is executed only with trading on and outside of a dry run, at the positive price
  -- that was fetched for its symbol, for which the trade executor admitted the signal built from it.
  pub tasso_execute-IsTaken :
      (s : TraderState W)
      → was_executed (tasso_execute ports cfg signal s).0 ≡ true
      → IsTaken ports cfg signal s
  unfolding tasso_execute and_then next read
  tasso_execute-IsTaken s e =
      let (known, on_disk) = otherwise _ _ _ s e in
      let (on, switched) = otherwise _ _ _ s on_disk in
      let (live, tried) = otherwise _ _ _ s switched in
      let (price, (fetched, (positive, admitted))) = priced _ _ tried in
      record {
        switched_on = negated _ on;
        is_live = live;
        price = price;
        fetched = fetched;
        price_positive = positive;
        admitted = admitted;
      }
