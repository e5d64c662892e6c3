-- ===== src/Otc/Schedule/RoundTrip.antt =====
-- A signal survives its way through the queue.
use native.Mathlib.Nat.{div-add-mod}
use divap_trader.Base.{◌<◌, ◌≡◌, refl, ap, Option, none, some, List, [], ◌∷◌, arith, All}
use divap_trader.Otc.Models.{OtcSignal, TimeOfDay}
use divap_trader.Otc.Schedule.Serial.{
  format_time, parse_minute, parse_long, parse_time, format_all, parse_all, parse_entry,
  serialize_signal, deserialize_signal, or_one, found_entry, format_entry,
}

pub record IsTimeOfDay (t : TimeOfDay) : Type 0 where
  pub hour_below : t.hour < 24
  pub minute_below : t.minute < 60

parse_time-format : (t : TimeOfDay) → IsTimeOfDay t → parse_time (format_time t) ≡ some t
unfolding parse_time format_time parse_long parse_minute
parse_time-format t v =
    let h10 = div-add-mod t.hour 10 in
    let m10 = div-add-mod t.minute 10 in ground (arith, v.hour_below, v.minute_below)

parse_all-format : (ts : List TimeOfDay) → All IsTimeOfDay ts → parse_all (format_all ts) ≡ some ts
unfolding parse_all format_all
parse_all-format [] v = refl
parse_all-format (t ∷ ts) (v, vs) = rw (parse_time-format t v) (rw (parse_all-format ts vs) refl)

-- A time of day that is there is one.
abbrev pub IsEntry : Option TimeOfDay → Type 0
IsEntry none = Unit
IsEntry (some t) = IsTimeOfDay t

parse_entry-format : (e : Option TimeOfDay) → IsEntry e → parse_entry (format_entry e) ≡ some e
unfolding parse_entry format_time
parse_entry-format none v = refl
parse_entry-format (some t) v = ap found_entry (parse_time-format t v)

-- A signal with valid times comes back from its serialized form as it was, but for an expiry of 0 minutes,
-- which comes back as 1.
pub deserialize_signal-serialize :
    (s : OtcSignal)
    → IsEntry s.entry_time
    → All IsTimeOfDay s.protection_schedule
    → deserialize_signal (serialize_signal s)
      ≡ some (record s { expiry_minutes = or_one (some s.expiry_minutes) })
unfolding deserialize_signal serialize_signal
deserialize_signal-serialize s v vs =
    rw (parse_entry-format s.entry_time v) (rw (parse_all-format s.protection_schedule vs) refl)
