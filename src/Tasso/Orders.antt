-- ===== src/Tasso/Orders.antt =====
-- TassoExecutor.try_execute (src/tasso/executor.py), which hands the built signal to the trade executor.
use divap_trader.Base.{ℕ, Bool, true, false, Option, none, some, not}
use divap_trader.Decimals.{Decimal, is_pos}
use divap_trader.Execution.Trader.Steps.{Step, done, and_then, read, choose}
use divap_trader.Execution.Trader.Ports.{Reason, TraderSettings, Venue, TradeExecutionResult}
use divap_trader.Execution.Trader.Execute.{try_execute}
use divap_trader.Tasso.Models.{TassoSignal, TassoPorts, symbol_or_default, build_divap_signal}

-- The reasons of the channel, and those of the trade executor.
pub data TassoReason : Type 0 where
  profile_not_found trading_disabled dry_run price_fetch_failed invalid_price : TassoReason
  traded : Reason → TassoReason

-- The dictionary of the result; the ids and the symbol that some results repeat are those of the signal.
pub record TassoResult : Type 0 where
  pub executed : Bool
  pub reason : TassoReason
  pub trade_id : Option ℕ

abbrev pub unexecuted : TassoReason → TassoResult
unexecuted reason = record { executed = false; reason = reason; trade_id = none }

abbrev pub result_of : TradeExecutionResult → TassoResult
result_of r = record { executed = r.executed; reason = traded r.reason; trade_id = r.trade_id }

abbrev is_none : {A : Type 0} → Option A → Bool
is_none none = true
is_none (some a) = false

module _ {W : Type 0} (ports : TassoPorts W) (cfg : TraderSettings) where
  unfoldable pub trade_at : TassoSignal → Decimal → Step W TassoResult
  unfolding try_execute build_divap_signal
  trade_at signal current =
      choose (not (is_pos current)) (done (unexecuted TassoReason.invalid_price)) (
        and_then
          (try_execute ports.broker cfg Venue.binance (build_divap_signal signal current) none none
            (some signal.profile_id) signal.take_profit_levels)
          λ r. done (result_of r))

  unfoldable pub trade_with : TassoSignal → Option Decimal → Step W TassoResult
  unfolding trade_at
  trade_with signal none = done (unexecuted TassoReason.price_fetch_failed)
  trade_with signal (some current) = trade_at signal current

  unfoldable pub tasso_execute : TassoSignal → Step W TassoResult
  unfolding trade_with
  tasso_execute signal =
      choose (is_none (ports.broker.load_profile signal.profile_id))
        (done (unexecuted TassoReason.profile_not_found))
        (choose (not cfg.gate.trading_enabled) (done (unexecuted TassoReason.trading_disabled)) (
          choose cfg.trading_dry_run (done (unexecuted TassoReason.dry_run)) (
            and_then (read (ports.fetch_last (symbol_or_default signal.symbol)))
              λ last. trade_with signal last)))
