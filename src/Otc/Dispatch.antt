-- ===== src/Otc/Dispatch.antt =====
-- src/otc/signal_dispatch.py: a signal is put in the queue of the tasks, if it has a time, or executed at
-- once. The queue and the clock are parts of the world; `delay` is execute_otc_signal.delay.
use divap_trader.Base.{
  ℕ, zero, suc, ◌+◌, ◌≡◌, ◌⊎◌, inl, inr, refl, String, Bool, true, false, ◌||◌, Option, none, some,
  List, [], ◌∷◌, if◌then◌else◌, is_some, arith,
}
use divap_trader.Base.Int.{ℤ, pos, ◌+ℤ◌}
use divap_trader.Otc.Models.{OtcSignal, OtcProfileConfig, OtcSequenceResult, TimeOfDay}
use divap_trader.Otc.Martingale.Defs.{at_least_zero}
use divap_trader.Otc.Guard.{StopReason}
use divap_trader.Otc.Schedule.Defs.{resolve_leg_datetime, leg_window_missed}
use divap_trader.Otc.Schedule.Serial.{SignalData, serialize_signal}
use divap_trader.Otc.Executor.Ports.{Ports, ExecState}
use divap_trader.Otc.Executor.Sequence.{run_guard, try_execute}

-- `a or b`, of a number that may be missing: 0 counts as missing
abbrev pub int_or : Option ℤ → ℤ → ℤ
int_or none d = d
int_or (some (ℤ.pos zero)) d = d
int_or (some n) d = n

abbrev pub preview_leg : ℕ → Option ℕ → List (ℕ × ℕ) → List (ℕ × ℕ)
preview_leg level none legs = legs
preview_leg level (some at) legs = (level, at) ∷ legs

-- The legs from `level` on, `rounds` of them, that have a time.
unfoldable pub preview_from : OtcSignal → ℕ → ℕ → ℕ → List (ℕ × ℕ)
unfolding resolve_leg_datetime
preview_from signal now zero level = []
preview_from signal now (suc rounds) level =
    preview_leg level (resolve_leg_datetime signal level now)
      (preview_from signal now rounds (level + 1))

abbrev has_any : List TimeOfDay → Bool
has_any [] = false
has_any (t ∷ ts) = true

-- should_queue_otc_execution (src/otc/tasks.py), which is has_scheduled_legs
unfoldable pub should_queue_otc_execution : OtcSignal → Bool
should_queue_otc_execution signal = is_some signal.entry_time || has_any signal.protection_schedule

-- The answer, without the asset and the direction, which are those of the signal.
pub data Dispatched : Type 0 where
  stopped : StopReason → Dispatched
  window_missed : Dispatched
  queued : String → List (ℕ × ℕ) → Dispatched
  executed_now : OtcSequenceResult → Dispatched

abbrev pub is_passed_on : Dispatched → Bool
is_passed_on (stopped reason) = false
is_passed_on window_missed = false
is_passed_on (queued task legs) = true
is_passed_on (executed_now result) = true

module _ {W : Type 0} (p : Ports W) (cfg : OtcProfileConfig)
    (delay : SignalData → W → String × W) where
  unfoldable pub build_schedule_preview : OtcSignal → ℕ → List (ℕ × ℕ)
  unfolding preview_from
  build_schedule_preview signal now =
      preview_from signal now
        (at_least_zero (int_or signal.max_auto_protections cfg.martingale.max_protections +ℤ pos 1))
        0

  unfoldable pub normalize_signal : OtcSignal → OtcSignal
  normalize_signal signal = record signal { asset = p.resolve_asset signal.asset }

  -- The signal in the queue, or the run of it.
  unfoldable pub pass_on : OtcSignal → ExecState W → Dispatched × ExecState W
  unfolding build_schedule_preview should_queue_otc_execution
  pass_on signal s =
      let (task, after) = delay (serialize_signal signal) s.world in
      let (result, end) = try_execute p cfg signal s in
      if should_queue_otc_execution signal
      then (queued task (build_schedule_preview signal (p.now after)), record s { world = after })
      else (executed_now result, end)

  unfoldable pub after_stop : OtcSignal → Option StopReason → ExecState W → Dispatched × ExecState W
  unfolding pass_on
  after_stop signal (some reason) s = (stopped reason, s)
  after_stop signal none s =
      if leg_window_missed signal 0 cfg.entry_max_lateness_seconds (p.now s.world)
      then (window_missed, s)
      else pass_on signal s

  unfoldable pub dispatch_otc_signal : OtcSignal → ExecState W → Dispatched × ExecState W
  unfolding normalize_signal after_stop run_guard
  dispatch_otc_signal signal s =
      let (reason, checked) = run_guard p cfg s in
      after_stop (normalize_signal signal) reason checked

  held :
      (signal : OtcSignal) (reason : Option StopReason) (s : ExecState W)
      → (is_some reason ≡ true)
        ⊎ (leg_window_missed signal 0 cfg.entry_max_lateness_seconds (p.now s.world) ≡ true)
      → let r = after_stop signal reason s in
        (is_passed_on r.0 ≡ false) × (r.1.world ≡ s.world) × (r.1.trades ≡ s.trades)
  unfolding after_stop
  held signal (some reason) s h = (refl, refl, refl)
  held signal none s (inl h) = ground arith
  held signal none s (inr h) = rw h (refl, refl, refl)

  -- A signal is held back, with the world and the table as they were, where the evaluation reports a stop or
  -- the window of its entry is missed.
  dispatch_otc_signal-held :
      (signal : OtcSignal) (s : ExecState W)
      → (is_some (run_guard p cfg s).0 ≡ true)
        ⊎ (leg_window_missed
              (normalize_signal signal)
              0
              cfg.entry_max_lateness_seconds
              (p.now s.world)
            ≡ true)
      → let r = dispatch_otc_signal signal s in
        (is_passed_on r.0 ≡ false) × (r.1.world ≡ s.world) × (r.1.trades ≡ s.trades)
  unfolding dispatch_otc_signal
  dispatch_otc_signal-held signal s h =
      held (normalize_signal signal) (run_guard p cfg s).0 (run_guard p cfg s).1 h
