-- ===== src/Otc/Executor/Sequence.antt =====
-- The loop over the protections and the result of a sequence (src/otc/executor.py).
use divap_trader.Base.{
  ℕ, zero, suc, ◌+◌, ◌-◌, String, Bool, false, ◌&&◌, not, Option, none, some, List, [], ◌∷◌, ltb,
  if◌then◌else◌, is_some, any, get_last,
}
use divap_trader.Base.Int.{pos, leb_ℤ}
use divap_trader.Decimals.{Decimal, whole, sum}
use divap_trader.Data.Trades.{count_open_trades}
use divap_trader.Otc.Models.{OtcSignal, OtcTradeResult, OtcProfileConfig, OtcSequenceResult}
use divap_trader.Otc.Martingale.{
  is_loss, is_win, max_auto_protections_for_signal, at_least_zero, sequence_reason,
}
use divap_trader.Otc.Guard.{
  StopReason, stop_win, stop_loss, evaluate_otc_stop, check_and_notify_otc_stop,
}
use divap_trader.Otc.Executor.Ports.{Ports, ExecState, result}
use divap_trader.Otc.Executor.Leg.{execute_leg}

-- Whether the loop goes on after a leg: the tests in the order of the source, each a `break` but the last.
unfoldable pub goes_on : OtcTradeResult → ℕ → ℕ → Bool
goes_on leg level max =
    if not leg.executed
    then false
    else if leg.dry_run
    then false
    else if not (is_some leg.pnl_usd)
    then false
    else if is_win leg
    then false
    else is_loss leg && ltb level max

-- The results that are known.
unfoldable pub known_pnls : List OtcTradeResult → List Decimal
known_pnls [] = []
known_pnls (leg ∷ legs) = elim (leg.pnl_usd) [
  | none ↦ known_pnls legs
  | some p ↦ p ∷ known_pnls legs
]

unfoldable pub total_of : List Decimal → Option Decimal
total_of [] = none
total_of (p ∷ ps) = some (sum (p ∷ ps))

-- `_total_pnl`
unfoldable pub total_pnl : List OtcTradeResult → Option Decimal
unfolding known_pnls total_of
total_pnl legs = total_of (known_pnls legs)

abbrev asset_of : OtcSignal → List OtcTradeResult → String
asset_of signal [] = signal.asset
asset_of signal (leg ∷ legs) = (get_last leg legs).asset

abbrev direction_of : OtcSignal → List OtcTradeResult → String
direction_of signal [] = signal.direction
direction_of signal (leg ∷ legs) = (get_last leg legs).direction

abbrev was_executed : OtcTradeResult → Bool
was_executed leg = leg.executed

abbrev was_dry : OtcTradeResult → Bool
was_dry leg = leg.dry_run

-- `_sequence_result`, with the number of protections given.
unfoldable pub sequence_result : OtcSignal → List OtcTradeResult → ℕ → OtcSequenceResult
sequence_result signal legs max = record {
  executed = any was_executed legs;
  reason = sequence_reason legs max;
  legs = legs;
  asset = asset_of signal legs;
  direction = direction_of signal legs;
  total_pnl_usd = total_pnl legs;
  dry_run = any was_dry legs;
}

abbrev stop_text : StopReason → String
stop_text stop_win = "stop_win"
stop_text stop_loss = "stop_loss"

-- A sequence that was refused before its first leg.
unfoldable pub refused : OtcSignal → String → ℕ → OtcSequenceResult
refused signal reason max =
    sequence_result signal (result false reason signal.asset signal.direction (whole 0) false ∷ [])
      max

module _ {W : Type 0} (p : Ports W) (cfg : OtcProfileConfig) where
  -- The loop over the levels from `level` on, with `rounds` of them left.
  unfoldable pub run_legs : OtcSignal → ℕ → ℕ → ℕ → ExecState W → List OtcTradeResult × ExecState W
  run_legs signal max zero level s = ([], s)
  run_legs signal max (suc rounds) level s =
      let (leg, s') =
        execute_leg p cfg (record signal { protection_level = pos level }) level max s in
      let rest = run_legs signal max rounds (level + 1) s' in
      if goes_on leg level max then (leg ∷ rest.0, rest.1) else (leg ∷ [], s')

  abbrev pub traded : OtcTradeResult → Bool
  traded leg = leg.executed && not leg.dry_run

  -- The evaluation of the stops against the state.
  unfoldable pub run_guard : ExecState W → Option StopReason × ExecState W
  run_guard s =
      let (reason, g) = evaluate_otc_stop (p.guard_inputs s.trades s.world) s.guard in
      (reason, record s { guard = g })

  -- After the legs: the stops are checked again if an order was traded.
  unfoldable pub recheck : List OtcTradeResult → ExecState W → ExecState W
  recheck legs s =
      if any traded legs
      then record s {
        guard = (check_and_notify_otc_stop (p.guard_inputs s.trades s.world) s.guard).1;
      }
      else s

  -- range(start_level, max_protections + 1) and what follows the loop.
  unfoldable pub run_sequence : OtcSignal → ExecState W → OtcSequenceResult × ExecState W
  run_sequence signal s =
      let max = max_auto_protections_for_signal signal cfg.martingale in
      let start = at_least_zero signal.protection_level in
      let (legs, s') = run_legs signal max (max + 1 - start) start s in
      (sequence_result signal legs max, recheck legs s')

  unfoldable pub after_guard :
      OtcSignal → Option StopReason → ExecState W → OtcSequenceResult × ExecState W
  after_guard signal (some reason) s =
      (refused signal (stop_text reason) (max_auto_protections_for_signal signal cfg.martingale), s)
  after_guard signal none s =
      if leb_ℤ cfg.max_open_trades (pos (count_open_trades (some "otc") s.trades))
      then (
        refused signal "max_open_trades" (max_auto_protections_for_signal signal cfg.martingale),
        s,
      )
      else run_sequence signal s

  unfoldable pub guarded : OtcSignal → ExecState W → OtcSequenceResult × ExecState W
  guarded signal s = let (reason, s') = run_guard s in after_guard signal reason s'

  unfoldable pub try_execute : OtcSignal → ExecState W → OtcSequenceResult × ExecState W
  try_execute signal s =
      if not p.otc_trading_enabled && not cfg.dry_run
      then (
        refused signal "otc_trading_disabled"
            (max_auto_protections_for_signal signal cfg.martingale),
        s,
      )
      else guarded signal s
