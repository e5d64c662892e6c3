-- ===== src/Otc/Schedule/Clock.antt =====
-- sleep_until, and the waiting of wait_for_leg, over a clock. Times and durations are in microseconds; a
-- loop on fuel gives none where the fuel ends before the loop.
use divap_trader.Base.{
  ℕ, zero, suc, ◌+◌, ◌-◌, ◌*◌, ◌≤◌, ◌≡◌, refl, Bool, true, false, Option, none, some, ltb, leb,
  arith, if◌then◌else◌,
}

-- now_fn and sleep_fn, over a world W.
pub record Clock (W : Type 0) : Type 0 where
  pub now : W → ℕ × W
  pub sleep : ℕ → W → W

-- A clock that does not run backwards, and a sleep that lasts as long as it was asked to, at least: `reading`
-- is the time of the world.
pub record IsClock {W : Type 0} (clock : Clock W) : Type 0 where
  pub reading : W → ℕ
  pub now_is : (w : W) → (clock.now w).0 ≡ reading w
  pub now_later : (w : W) → reading w ≤ reading (clock.now w).1
  pub sleep_lasts : (d : ℕ) (w : W) → reading w + d ≤ reading (clock.sleep d w)

-- COARSE_SLEEP_BUFFER_SECONDS and FINE_POLL_INTERVAL_SECONDS
abbrev pub coarse_buffer : ℕ
coarse_buffer = 50000

abbrev pub fine_interval : ℕ
fine_interval = 5000

module _ {W : Type 0} (clock : Clock W) where
  -- `while now_fn() < target: sleep_fn(...)`
  unfoldable pub poll_until : ℕ → ℕ → W → Option W
  poll_until zero target w = none
  poll_until (suc fuel) target w =
      let (t, after) = clock.now w in
      let rest = poll_until fuel target (clock.sleep fine_interval after) in
      if ltb t target then rest else some after

  -- The coarse sleep, if any, and the loop, from a moment t before the target.
  unfoldable pub sleep_from : ℕ → ℕ → ℕ → W → Option W
  unfolding poll_until
  sleep_from fuel t target w =
      poll_until fuel target
        (if ltb coarse_buffer (target - t) then clock.sleep (target - t - coarse_buffer) w else w)

  unfoldable pub sleep_until : ℕ → ℕ → W → Option W
  unfolding sleep_from
  sleep_until fuel target w =
      let (t, after) = clock.now w in
      let slept = sleep_from fuel t target after in if leb target t then some after else slept

-- The waiting ended, at the target or later, and no earlier than it began.
pub record IsAwake {W : Type 0} {clock : Clock W} (c : IsClock clock) (target : ℕ) (before : W)
    (result : Option W) : Type 0 where
  pub woken : W
  pub is_woken : result ≡ some woken
  pub target_reached : target ≤ c.reading woken
  pub later : c.reading before ≤ c.reading woken

module _ {W : Type 0} {clock : Clock W} (c : IsClock clock) where
  pub wake_if :
      (target : ℕ) (before after : W) (rest : Option W) (b : Bool)
      → (b ≡ true → IsAwake c target before rest)
      → (b ≡ false → target ≤ c.reading after)
      → c.reading before ≤ c.reading after
      → IsAwake c target before (if b then rest else some after)
  wake_if target before after rest true p q l = p refl
  wake_if target before after rest false p q l = record {
    woken = after;
    is_woken = refl;
    target_reached = q refl;
    later = l;
  }

  pub wake_later :
      {target : ℕ} {before middle : W} {r : Option W}
      → c.reading before ≤ c.reading middle
      → IsAwake c target middle r
      → IsAwake c target before r
  wake_later l a = record {
    woken = a.woken;
    is_woken = a.is_woken;
    target_reached = a.target_reached;
    later = ground (arith, a.later);
  }

  pub reached :
      (target : ℕ) (w : W) → ltb (clock.now w).0 target ≡ false → target ≤ c.reading (clock.now w).1
  reached target w h = ground (arith, c.now_is w, c.now_later w)

  poll_until-IsAwake :
      (fuel target : ℕ) (w : W)
      → target ≤ c.reading w + fuel * fine_interval
      → IsAwake c target w (poll_until clock (suc fuel) target w)
  unfolding poll_until
  poll_until-IsAwake zero target w h =
      wake_if target w (clock.now w).1 _ _ (λ e. ground (arith, c.now_is w)) (reached target w)
        (c.now_later w)
  poll_until-IsAwake (suc fuel) target w h =
      let slept = clock.sleep fine_interval (clock.now w).1 in
      let lasts = c.sleep_lasts fine_interval (clock.now w).1 in
      wake_if target w (clock.now w).1 _ _
        (λ e.
          wake_later (omega (arith, c.now_later w, lasts))
            (poll_until-IsAwake fuel target slept (omega (arith, c.now_later w, lasts))))
        (reached target w) (c.now_later w)

  coarse-IsAwake :
      (b : Bool) (fuel d target : ℕ) (w : W)
      → target ≤ c.reading w + fuel * fine_interval
      → IsAwake c target w (poll_until clock (suc fuel) target (if b then clock.sleep d w else w))
  coarse-IsAwake true fuel d target w h =
      wake_later (omega (arith, c.sleep_lasts d w))
        (poll_until-IsAwake fuel target (clock.sleep d w) (omega (arith, c.sleep_lasts d w)))
  coarse-IsAwake false fuel d target w h = poll_until-IsAwake fuel target w h

  pub sleep_from-IsAwake :
      (fuel t target : ℕ) (w : W)
      → target ≤ c.reading w + fuel * fine_interval
      → IsAwake c target w (sleep_from clock (suc fuel) t target w)
  unfolding sleep_from
  sleep_from-IsAwake fuel t target w h = coarse-IsAwake _ fuel _ target w h

  wake_unless :
      (target : ℕ) (before after : W) (rest : Option W) (b : Bool)
      → (b ≡ true → target ≤ c.reading after)
      → IsAwake c target before rest
      → c.reading before ≤ c.reading after
      → IsAwake c target before (if b then some after else rest)
  wake_unless target before after rest true p q l = record {
    woken = after;
    is_woken = refl;
    target_reached = p refl;
    later = l;
  }
  wake_unless target before after rest false p q l = q

  -- With one round of the loop for each interval of 5 ms up to the target, and one more, the wait ends, and
  -- it ends at the target or later: it never wakes early.
  pub sleep_until-IsAwake :
      (fuel target : ℕ) (w : W)
      → target ≤ c.reading w + fuel * fine_interval
      → IsAwake c target w (sleep_until clock (suc fuel) target w)
  unfolding sleep_until
  sleep_until-IsAwake fuel target w h =
      let later = c.now_later w in
      let (t, after) = clock.now w in
      wake_unless target w after _ _ (λ e. ground (arith, c.now_is w))
        (wake_later later (sleep_from-IsAwake fuel t target after (omega (arith, later)))) later
