-- ===== src/Otc/Settlement/Wait.antt =====
-- wait_settlement: polls until a result, the end of the grace after the synchronisation, or the hard deadline.
use divap_trader.Base.{
  ℕ, zero, suc, ◌+◌, ◌-◌, ◌*◌, Bool, false, Option, none, some, ltb, leb, if◌then◌else◌,
}
use divap_trader.Base.Int.{ℤ, pos_part, neg_part}
use divap_trader.Decimals.{Decimal}
use divap_trader.Otc.Models.{OtcSettlementContext}
use divap_trader.Otc.Schedule.Defs.{minute}
use divap_trader.Otc.Schedule.Clock.{Clock, sleep_until}

abbrev pub poll_fast : ℕ
poll_fast = 100000

abbrev pub poll_normal : ℕ
poll_normal = 500000

abbrev pub aggressive_window : ℕ
aggressive_window = 8000000

abbrev pub grace_after_deadline : ℕ
grace_after_deadline = 15000000

abbrev pub max_extra : ℕ
max_extra = 25000000

-- A result with its world, none where a poll raised.
abbrev pub Settled : Type 0 → Type 0
Settled W = Option (Option Decimal) × W

-- The time after the duration and the extra; a negative duration takes away.
unfoldable pub hard_deadline_of : ℕ → ℤ → ℕ
hard_deadline_of now duration =
    now + pos_part duration * minute + max_extra - neg_part duration * minute

abbrev pub past_sync : Option ℕ → ℕ → Bool
past_sync none now = false
past_sync (some sync) now = leb (sync + grace_after_deadline) now

abbrev pub is_close : Option ℕ → ℕ → Bool
is_close none now = false
is_close (some sync) now = leb sync (now + aggressive_window)

unfoldable pub interval_at : Option ℕ → ℕ → ℕ
interval_at sync now = if is_close sync now then poll_fast else poll_normal

module _ {W : Type 0} (clock : Clock W) where
  abbrev pub settled_at : Decimal → Option W → Option (Settled W)
  settled_at pnl none = none
  settled_at pnl (some w) = some (some (some pnl), w)

  -- A result before the synchronisation waits for it.
  unfoldable pub in_step : ℕ → Option ℕ → Decimal → ℕ → W → Option (Settled W)
  unfolding sleep_until
  in_step fuel none pnl now w = some (some (some pnl), w)
  in_step fuel (some sync) pnl now w =
      let slept = sleep_until clock fuel sync w in
      if ltb now sync then settled_at pnl slept else some (some (some pnl), w)

  unfoldable pub wait_round :
      ℕ → Option ℕ → ℕ → Option (Option Decimal) → ℕ → W → Option (Settled W) → Option (Settled W)
  unfolding in_step
  wait_round fuel sync hard none now w rest = some (none, w)
  wait_round fuel sync hard (some (some pnl)) now w rest = in_step fuel sync pnl now w
  wait_round fuel sync hard (some none) now w rest =
      if past_sync sync now
      then some (some none, w)
      else if leb hard now
      then some (some none, w)
      else rest

  -- A poll that raises ends the wait before the clock is read.
  abbrev pub clock_after : Option (Option Decimal) × W → ℕ × W
  clock_after (none, w) = (0, w)
  clock_after (some pnl, w) = clock.now w

module _ {W : Type 0} (clock : Clock W) (poll : W → Option (Option Decimal) × W) where
  unfoldable pub wait_loop : ℕ → Option ℕ → ℕ → W → Option (Settled W)
  unfolding wait_round interval_at
  wait_loop zero sync hard w = none
  wait_loop (suc fuel) sync hard w =
      let polled = poll w in
      let (now, after) = clock_after clock polled in
      let rest = wait_loop fuel sync hard (clock.sleep (interval_at sync now) after) in
      wait_round clock (suc fuel) sync hard polled.0 now after rest

  unfoldable pub wait_settlement : ℕ → OtcSettlementContext → Option ℕ → W → Option (Settled W)
  unfolding wait_loop hard_deadline_of
  wait_settlement fuel ctx sync w =
      let (now, after) = clock.now w in
      wait_loop fuel sync (hard_deadline_of now ctx.duration_minutes) after
