-- ===== src/Witnesses/Waits.antt =====
-- The theorems on waiting, on the queue and on the table of trades.
use divap_trader.Base.{ℕ, ◌+◌, ◌≡◌, refl, none, some, [], ◌∷◌, arith, Option, List}
use divap_trader.Base.Int.{pos}
use divap_trader.Decimals.{Decimal, whole}
use divap_trader.Data.Trades.{take_profit}
use divap_trader.Data.Ledger.{
  Statement, create, close, run_all, perform_all, empty_trades, empty_ledger,
}
use divap_trader.Data.Refinement.{IsRefined, run_all-IsRefined_empty}
use divap_trader.Otc.Models.{OtcSignal, OtcSettlementContext}
use divap_trader.Otc.Schedule.Defs.{on_day}
use divap_trader.Otc.Schedule.Clock.{Clock, IsClock}
use divap_trader.Otc.Schedule.Waiting.{wait_for_leg}
use divap_trader.Otc.Schedule.Arrival.{IsAnswered, wait_for_leg-IsAnswered}
use divap_trader.Otc.Schedule.Serial.{serialize_signal, deserialize_signal, or_one}
use divap_trader.Otc.Schedule.RoundTrip.{deserialize_signal-serialize}
use divap_trader.Otc.Settlement.Wait.{hard_deadline_of, wait_settlement}
use divap_trader.Otc.Settlement.Ends.{IsOver, wait_settlement-IsOver}
use divap_trader.Witnesses.Samples.{open_row}
use divap_trader.Witnesses.Clock.{timed, now, minute_of_protection}

-- The world is the time.
abbrev clock : Clock ℕ
clock = record { now = λ w. (w, w); sleep = λ d w. w + d }

steady : IsClock clock
steady = record {
  reading = λ w. w;
  now_is = λ w. refl;
  now_later = λ w. omega arith;
  sleep_lasts = λ d w. omega arith;
}

wait_for_leg-IsAnswered_example :
    IsAnswered steady (on_day now 983) (pos 0) (wait_for_leg clock 17280001 timed 1 (pos 0) now)
wait_for_leg-IsAnswered_example =
    wait_for_leg-IsAnswered steady timed 1 983 17280000 (pos 0) now minute_of_protection
      (omega arith) (omega arith)

abbrev order : OtcSettlementContext
order = record {
  transport = "legacy";
  resolved_asset = "EURUSD-OTC";
  direction = "buy";
  stake_usd = whole 5;
  duration_minutes = pos 1;
  order_id = some "31";
  mcp_asset_id = none;
  mcp_position_id = none;
  legacy_order_id = some "31";
}

-- No poll has a result.
abbrev unsettled : ℕ → Option (Option Decimal) × ℕ
unsettled w = (some none, w)

wait_settlement-IsOver_example :
    IsOver steady
      (some 1060)
      (hard_deadline_of 1000 (pos 1))
      (wait_settlement clock unsettled 17001 order (some 1060) 1000)
unfolding hard_deadline_of steady
wait_settlement-IsOver_example =
    wait_settlement-IsOver steady unsettled (λ w. omega arith) order (some 1060) 17000 1000
      (omega arith) (omega arith)

abbrev queued : OtcSignal
queued = record timed { protection_schedule = record { hour = 16; minute = 23 } ∷ [] }

deserialize_signal-serialize_example :
    deserialize_signal (serialize_signal queued)
    ≡ some (record queued { expiry_minutes = or_one (some queued.expiry_minutes) })
deserialize_signal-serialize_example =
    deserialize_signal-serialize queued
      (record { hour_below = omega arith; minute_below = omega arith })
      (record { hour_below = omega arith; minute_below = omega arith }, tt)

abbrev history : List Statement
history =
    create open_row
    ∷ create open_row
    ∷ close 4 (whole 90) (whole 5) (whole 10) take_profit 8 none
    ∷ []

run_all-IsRefined_empty_example :
    IsRefined (run_all history (empty_trades 4)) (perform_all history (empty_ledger 4))
run_all-IsRefined_empty_example = run_all-IsRefined_empty 4 history
