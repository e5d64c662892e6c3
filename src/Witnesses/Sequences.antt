-- ===== src/Witnesses/Sequences.antt =====
-- The theorems on the executor at the sample signal, whose two levels are both lost.
use divap_trader.Base.{◌+◌, ◌≡◌, refl, inr, false, none, some, length, get_last, arith}
use divap_trader.Base.Int.{pos, ◌≤ℤ◌, ◌*ℤ◌}
use divap_trader.Data.Trades.{count_open_trades}
use divap_trader.Decimals.{whole, negate, quantize, power, ◌⊗◌}
use divap_trader.Otc.Executor.Leg.{
  execute_leg, has_scheduled_legs, trade_leg, place_leg, store_result, effective_base_stake,
  base_stake_with, persist_trade,
}
use divap_trader.Otc.Executor.Ports.{place_binary, settle_opened, open_binary}
use divap_trader.Otc.Models.{OtcTradeResult}
use divap_trader.Otc.Martingale.{max_auto_protections_for_signal, stake_for_level, power_ℤ, min_ℤ}
use divap_trader.Otc.Executor.Sequence.{
  run_legs, run_sequence, goes_on, sequence_result, try_execute,
}
use divap_trader.Otc.Executor.Legs.{IsLadder, IsLost, run_legs-IsLadder}
use divap_trader.Otc.Executor.Gates.{try_execute-IsUntouched}
use divap_trader.Otc.Executor.Totals.{row_counts, run_sequence-rows}
use divap_trader.Otc.Executor.Outcome.{ending_of, run_sequence-reason}
use divap_trader.Witnesses.Samples.{config, signal, ports, ports-HasContexts, start, occupied}

run_legs-IsLadder_example : IsLadder 0 (run_legs ports config signal 1 2 0 start).0
run_legs-IsLadder_example = run_legs-IsLadder ports config signal 1 2 0 start

abbrev blank : OtcTradeResult
blank = record {
  executed = false;
  reason = "";
  trade_id = none;
  order_id = none;
  asset = "";
  direction = "";
  stake_usd = whole 0;
  pnl_usd = none;
  dry_run = false;
  protection_level = 0;
}

run_sequence-reason_example :
    let r = (run_sequence ports config signal start).0 in
    r.reason ≡ ending_of r.legs (max_auto_protections_for_signal signal config.martingale)
run_sequence-reason_example = run_sequence-reason ports config signal start

run_sequence-rows_example :
    let (r, s) = run_sequence ports config signal start in
    length s.trades.rows ≡ 0 + row_counts r.legs
run_sequence-rows_example = run_sequence-rows ports config ports-HasContexts signal start

last-IsLost : IsLost (get_last blank (run_sequence ports config signal start).0.legs)
unfolding run_sequence sequence_result run_legs max_auto_protections_for_signal goes_on execute_leg
    has_scheduled_legs trade_leg place_leg place_binary store_result negate stake_for_level
    effective_base_stake base_stake_with power_ℤ min_ℤ quantize power ◌⊗◌ ◌*ℤ◌ settle_opened
    open_binary persist_trade
last-IsLost = record { executed = refl; real = refl; lost = refl }

one_open : config.max_open_trades ≤ℤ pos (count_open_trades (some "otc") occupied.trades)
unfolding count_open_trades
one_open = omega arith

try_execute-IsUntouched_example :
    let r = try_execute ports config signal occupied in
    (r.0.executed ≡ false) × (r.1.world ≡ occupied.world) × (r.1.trades ≡ occupied.trades)
try_execute-IsUntouched_example =
    try_execute-IsUntouched ports config signal occupied (inr (inr one_open))
