-- ===== src/Tasso/Dispatch.antt =====
-- dispatch_tasso_signal (src/tasso/signal_dispatch.py).
use divap_trader.Execution.Trader.Steps.{Step, done, and_then}
use divap_trader.Execution.Trader.Ports.{TraderSettings}
use divap_trader.Tasso.Models.{TassoSignal, TassoPorts, SignalKind, new_signal, revision, stop_hit}
use divap_trader.Tasso.Orders.{TassoResult, tasso_execute}
use divap_trader.Tasso.Revisions.{RevisionResult, apply_revision}
use divap_trader.Tasso.Closing.{ClosingResult, apply_stop_hit}

pub data Dispatched : Type 0 where
  order : TassoResult → Dispatched
  revised : RevisionResult → Dispatched
  stopped : ClosingResult → Dispatched

module _ {W : Type 0} (ports : TassoPorts W) (cfg : TraderSettings) where
  unfoldable pub dispatch_kind : SignalKind → TassoSignal → Step W Dispatched
  unfolding tasso_execute apply_revision apply_stop_hit
  dispatch_kind stop_hit signal = and_then (apply_stop_hit ports cfg signal) λ r. done (stopped r)
  dispatch_kind revision signal = and_then (apply_revision ports cfg signal) λ r. done (revised r)
  dispatch_kind new_signal signal = and_then (tasso_execute ports cfg signal) λ r. done (order r)

  unfoldable pub dispatch_tasso_signal : TassoSignal → Step W Dispatched
  unfolding dispatch_kind
  dispatch_tasso_signal signal = dispatch_kind signal.signal_kind signal
