-- ===== src/Otc/Schedule/Defs.antt =====
-- resolve_leg_datetime, lateness_seconds and leg_window_missed. A local date and time is the number of its
-- microseconds since some midnight: datetimes of one zone are compared and moved by their wall clock.
use divap_trader.Base.{
  ℕ, zero, suc, ◌+◌, ◌-◌, ◌*◌, ◌/◌, ◌%◌, Bool, false, Option, none, some, get_elem?, ltb,
  if◌then◌else◌,
}
use divap_trader.Base.Int.{ℤ, pos, ltb_ℤ}
use divap_trader.Otc.Models.{OtcSignal, TimeOfDay}

abbrev pub second : ℕ
second = 1000000

abbrev pub minute : ℕ
minute = 60000000

abbrev pub half_day : ℕ
half_day = 43200000000

abbrev pub day : ℕ
day = 86400000000

abbrev pub minutes_of : TimeOfDay → ℕ
minutes_of t = t.hour * 60 + t.minute

abbrev from_schedule : Option TimeOfDay → Option TimeOfDay → ℕ → Option ℕ
from_schedule (some t) entry level = some (minutes_of t)
from_schedule none none level = none
from_schedule none (some t) level = some ((minutes_of t + level) % 1440)

abbrev from_entry : Option TimeOfDay → Option ℕ
from_entry none = none
from_entry (some t) = some (minutes_of t)

-- The minute of the day of a leg: the entry's, the scheduled one, or one more for each level.
unfoldable pub leg_minute : OtcSignal → ℕ → Option ℕ
leg_minute signal zero = from_entry signal.entry_time
leg_minute signal (suc i) =
    from_schedule (get_elem? signal.protection_schedule i) signal.entry_time (suc i)

-- The time on the day of `now`, or on the next day if it is more than 12 hours ago.
unfoldable pub on_day : ℕ → ℕ → ℕ
on_day now m =
    let candidate = now / day * day + m * minute in
    if ltb (candidate + half_day) now then candidate + day else candidate

abbrev on_day_of : ℕ → Option ℕ → Option ℕ
on_day_of now none = none
on_day_of now (some m) = some (on_day now m)

unfoldable pub resolve_leg_datetime : OtcSignal → ℕ → ℕ → Option ℕ
unfolding leg_minute
resolve_leg_datetime signal level now = on_day_of now (leg_minute signal level)

-- max(0, int(seconds)): a negative difference is cut to 0.
unfoldable pub lateness_seconds : ℕ → ℕ → ℕ
lateness_seconds now target = (now - target) / second

unfoldable pub is_missed : ℤ → ℕ → Option ℕ → Bool
unfolding lateness_seconds
is_missed max_lateness now none = false
is_missed max_lateness now (some target) = ltb_ℤ max_lateness (pos (lateness_seconds now target))

unfoldable pub leg_window_missed : OtcSignal → ℕ → ℤ → ℕ → Bool
unfolding is_missed resolve_leg_datetime
leg_window_missed signal level max_lateness now =
    is_missed max_lateness now (resolve_leg_datetime signal level now)
