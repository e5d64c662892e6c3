-- ===== src/Otc/Schedule/Waiting.antt =====
-- wait_for_leg: the wait for the time of a leg, and its refusal where the time is past.
use divap_trader.Base.{ℕ, Option, none, some, ltb, if◌then◌else◌}
use divap_trader.Base.Int.{ℤ, pos, ltb_ℤ}
use divap_trader.Otc.Models.{OtcSignal}
use divap_trader.Otc.Schedule.Defs.{resolve_leg_datetime, lateness_seconds, leg_window_missed}
use divap_trader.Otc.Schedule.Clock.{Clock, sleep_from}

-- The answer: the leg may be opened, or has missed its time, with what the text of the reason prints.
pub data Answer : Type 0 where
  ready : Answer
  missed : ℕ → ℕ → ℕ → Answer

-- The reason for a leg that is missed at `now`, which resolves the target again.
unfoldable pub missed_reason : ℕ → ℕ → Option ℕ → Answer
unfolding lateness_seconds
missed_reason level now none = ready
missed_reason level now (some target) = missed level target (lateness_seconds now target)

module _ {W : Type 0} (clock : Clock W) where
  -- After the wait.
  unfoldable pub judge : ℕ → ℕ → ℤ → W → Answer × W
  unfolding lateness_seconds
  judge level target max_lateness w =
      let (t, after) = clock.now w in
      let late = lateness_seconds t target in
      (if ltb_ℤ max_lateness (pos late) then missed level target late else ready, after)

  unfoldable pub judge_woken : ℕ → ℕ → ℤ → Option W → Option (Answer × W)
  unfolding judge
  judge_woken level target max_lateness none = none
  judge_woken level target max_lateness (some w) = some (judge level target max_lateness w)

  unfoldable pub await : ℕ → ℕ → ℕ → ℤ → W → Option (Answer × W)
  unfolding judge_woken sleep_from
  await fuel level target max_lateness w =
      let (t, after) = clock.now w in
      let slept = sleep_from clock fuel t target after in
      judge_woken level target max_lateness (if ltb t target then slept else some after)

  unfoldable pub wait_at : ℕ → OtcSignal → ℕ → ℤ → Option ℕ → W → Option (Answer × W)
  unfolding await leg_window_missed missed_reason resolve_leg_datetime
  wait_at fuel signal level max_lateness none w = some (ready, w)
  wait_at fuel signal level max_lateness (some target) w =
      let (t, after) = clock.now w in
      let waited = await fuel level target max_lateness after in
      if leg_window_missed signal level max_lateness t
      then some (missed_reason level t (resolve_leg_datetime signal level t), after)
      else waited

  unfoldable pub wait_for_leg : ℕ → OtcSignal → ℕ → ℤ → W → Option (Answer × W)
  unfolding wait_at resolve_leg_datetime
  wait_for_leg fuel signal level max_lateness w =
      let (t, after) = clock.now w in
      wait_at fuel signal level max_lateness (resolve_leg_datetime signal level t) after
