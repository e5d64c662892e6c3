-- ===== src/Otc/Schedule/Window.antt =====
-- The time of a leg lies around the moment at which it is asked for.
use native.Mathlib.Nat.{div-add-mod, mod-lt}
use divap_trader.Base.{
  ℕ, ◌+◌, ◌-◌, ◌*◌, ◌/◌, ◌≤◌, ◌<◌, ◌≡◌, true, some, arith, ltb, refl, ◌↔◌, ltb→lt, lt→ltb,
}
use divap_trader.Base.Int.{pos}
use divap_trader.Otc.Models.{OtcSignal}
use divap_trader.Otc.Schedule.Defs.{
  second, half_day, day, leg_minute, on_day, resolve_leg_datetime, lateness_seconds, is_missed,
  leg_window_missed,
}

pos_day : 0 < day
pos_day = omega arith

day_parts : (now : ℕ) → (now / day * day ≤ now) × (now < now / day * day + day)
day_parts now = (
  omega (arith, div-add-mod now day, mod-lt now pos_day),
  omega (arith, div-add-mod now day, mod-lt now pos_day),
)

-- The time on the day is at most 12 hours before the moment and less than a day after it.
pub on_day_window :
    (now m : ℕ) → m < 1440 → (now ≤ on_day now m + half_day) × (on_day now m < now + day)
unfolding on_day
on_day_window now m h = ground (arith, day_parts now)

pos_second : 0 < second
pos_second = omega arith

late_seconds : (l d : ℕ) → ltb l (d / second) ≡ true ↔ (l + 1) * second ≤ d
late_seconds l d = (
  λ h. omega (arith, div-add-mod d second, ltb→lt l (d / second) h),
  λ h. lt→ltb _ _ (omega (arith, div-add-mod d second, mod-lt d pos_second)),
)

module _ (signal : OtcSignal) (level now m : ℕ) (e : leg_minute signal level ≡ some m) where
  pub resolved : resolve_leg_datetime signal level now ≡ some (on_day now m)
  unfolding resolve_leg_datetime
  resolved = rw e refl

  -- A leg with a time of day is given the time, on this day or the next, that lies at most 12 hours before the
  -- moment it is asked for at and less than 24 hours after it.
  pub resolve_leg_datetime_window :
      m < 1440
      → (t : ℕ) × ((resolve_leg_datetime signal level now ≡ some t)
          × (now ≤ t + half_day)
          × (t < now + day))
  resolve_leg_datetime_window h =
      let w = on_day_window now m h in (on_day now m, (resolved, w.0, w.1))

  missed_at :
      (l : ℕ) → leg_window_missed signal level (pos l) now ≡ ltb l ((now - on_day now m) / second)
  unfolding leg_window_missed is_missed lateness_seconds
  missed_at l = rw resolved (ground arith)

  -- A leg with a time is missed exactly when the moment is one whole second more than the tolerance past its
  -- time: with a tolerance of 0 a leg may still be opened within its second.
  pub leg_window_missed_lem :
      (l : ℕ)
      → (leg_window_missed signal level (pos l) now ≡ true)
        ↔ ((l + 1) * second + on_day now m ≤ now)
  leg_window_missed_lem l =
      let late = late_seconds l (now - on_day now m) in
      rw (missed_at l) ((λ h. omega (arith, late.0 h)), (λ h. late.1 (omega arith)))
