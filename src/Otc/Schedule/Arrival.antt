-- ===== src/Otc/Schedule/Arrival.antt =====
-- The wait for a leg ends, and a leg that may be opened is neither early nor late.
use divap_trader.Base.{
  ℕ, suc, ◌+◌, ◌*◌, ◌≤◌, ◌<◌, ◌≡◌, ◌≢◌, refl, Bool, true, false, Option, none, some, arith,
  if◌then◌else◌, ap, sym, subst, option_or,
}
use divap_trader.Base.Int.{ℤ, pos, ltb_ℤ}
use divap_trader.Otc.Models.{OtcSignal}
use divap_trader.Otc.Schedule.Defs.{
  day, leg_minute, on_day, resolve_leg_datetime, lateness_seconds, leg_window_missed, is_missed,
}
use divap_trader.Otc.Schedule.Window.{on_day_window, resolved}
use divap_trader.Otc.Schedule.Clock.{
  Clock, IsClock, IsAwake, sleep_from-IsAwake, fine_interval, wake_if, wake_later, reached,
}
use divap_trader.Otc.Schedule.Waiting.{
  Answer, ready, missed, missed_reason, judge, judge_woken, await, wait_at, wait_for_leg,
}

-- The world is the one that a reading of the clock left, and the time that it showed is on time.
pub record LastShown {W : Type 0} (clock : Clock W) (target : ℕ) (max_lateness : ℤ) (after : W)
    : Type 0 where
  pub before : W
  pub last_reading : (clock.now before).1 ≡ after
  pub not_early : target ≤ (clock.now before).0
  pub not_late : ltb_ℤ max_lateness (pos (lateness_seconds (clock.now before).0 target)) ≡ false

-- The wait ends; where it answers that the leg may be opened, the time that the clock showed last, when the
-- wait left the world as it is after it, is not before the target and, in whole seconds, not later than the
-- tolerance allows.
pub record IsAnswered {W : Type 0} {clock : Clock W} (c : IsClock clock) (target : ℕ)
    (max_lateness : ℤ) (result : Option (Answer × W)) : Type 0 where
  pub answer : Answer
  pub after : W
  pub is_answered : result ≡ some (answer, after)
  pub on_time : answer ≡ ready → LastShown clock target max_lateness after

option_same : {W : Type 0} (v w : W) → some v ≡ some w → v ≡ w
option_same v w h = ap (λ o. option_or o v) h

missed_not_ready :
    (level now : ℕ) (l : ℤ) (o : Option ℕ)
    → is_missed l now o ≡ true
    → missed_reason level now o ≢ ready
unfolding is_missed missed_reason
missed_not_ready level now l none h e = ground arith
missed_not_ready level now l (some t) h e = ground arith

module _ {W : Type 0} {clock : Clock W} (c : IsClock clock) (level target : ℕ) (l : ℤ) where
  judged :
      (w : W) (b : Bool) (late : ℕ)
      → target ≤ (clock.now w).0
      → ltb_ℤ l (pos (lateness_seconds (clock.now w).0 target)) ≡ b
      → (if b then missed level target late else ready) ≡ ready
      → LastShown clock target l (clock.now w).1
  judged w true late h e r = ground arith
  judged w false late h e r = record {
    before = w;
    last_reading = refl;
    not_early = h;
    not_late = e;
  }

  judge_woken-IsAnswered :
      (before : W) (r : Option W)
      → IsAwake c target before r
      → IsAnswered c target l (judge_woken clock level target l r)
  unfolding judge_woken judge
  judge_woken-IsAnswered before none a = ground (arith, a.is_woken)
  judge_woken-IsAnswered before (some w) a =
      let woken = option_same w a.woken a.is_woken in
      let reach = subst (λ x. target ≤ c.reading x) (sym woken) a.target_reached in
      record {
        answer = _;
        after = _;
        is_answered = refl;
        on_time = judged w _ _ (omega (arith, c.now_is w, reach)) refl;
      }

  await-IsAnswered :
      (fuel : ℕ) (w : W)
      → target ≤ c.reading w + fuel * fine_interval
      → IsAnswered c target l (await clock (suc fuel) level target l w)
  unfolding await
  await-IsAnswered fuel w h =
      let later = c.now_later w in
      let (t, after) = clock.now w in
      judge_woken-IsAnswered w _ (
        wake_if c target w after _ _
          (λ e.
            wake_later c later (sleep_from-IsAwake c fuel t target after (omega (arith, later))))
          (reached c target w) later)

  refused_or :
      (b : Bool) (a : Answer) (after : W) (rest : Option (Answer × W))
      → (b ≡ true → a ≢ ready)
      → IsAnswered c target l rest
      → IsAnswered c target l (if b then some (a, after) else rest)
  refused_or true a after rest n r = record {
    answer = a;
    after = after;
    is_answered = refl;
    on_time = λ e. ground (arith, n refl e);
  }
  refused_or false a after rest n r = r

  wait_at-IsAnswered :
      (signal : OtcSignal) (fuel : ℕ) (w : W)
      → target ≤ c.reading w + fuel * fine_interval
      → IsAnswered c target l (wait_at clock (suc fuel) signal level l (some target) w)
  unfolding wait_at leg_window_missed
  wait_at-IsAnswered signal fuel w h =
      let later = c.now_later w in
      let (t, after) = clock.now w in
      refused_or _ _ after _ (missed_not_ready level t l (resolve_leg_datetime signal level t))
        (await-IsAnswered fuel after (omega (arith, later)))

module _ {W : Type 0} {clock : Clock W} (c : IsClock clock) where
  -- With a round of the loop for each 5 ms of a day, and one more, the wait for a leg with a time of day
  -- ends, on a clock that does not run back and with a sleep that lasts; where it lets the leg be opened, the
  -- last reading of the clock showed a time from the leg's time on, later by no more whole seconds than the
  -- tolerance.
  pub wait_for_leg-IsAnswered :
      (signal : OtcSignal) (level m fuel : ℕ) (max_lateness : ℤ) (w : W)
      → leg_minute signal level ≡ some m
      → m < 1440
      → day ≤ fuel * fine_interval
      → IsAnswered c
          (on_day (clock.now w).0 m)
          max_lateness
          (wait_for_leg clock (suc fuel) signal level max_lateness w)
  unfolding wait_for_leg
  wait_for_leg-IsAnswered signal level m fuel max_lateness w e k f =
      let later = c.now_later w in
      let is = c.now_is w in
      let near = (on_day_window (clock.now w).0 m k).1 in
      let (t, after) = clock.now w in
      subst
        (λ o.
          IsAnswered c (on_day t m) max_lateness
            (wait_at clock (suc fuel) signal level max_lateness o after))
        (sym (resolved signal level t m e))
        (wait_at-IsAnswered c level (on_day t m) max_lateness signal fuel after
          (omega (arith, later, is, near)))
