-- ===== src/Witnesses/Clock.antt =====
-- The theorems on the times of legs at a signal for 16:22, asked for at 16:23:01 of the second day.
use divap_trader.Base.{ℕ, ◌+◌, ◌*◌, ◌≤◌, ◌≡◌, ◌↔◌, refl, true, some}
use divap_trader.Base.Int.{pos}
use divap_trader.Otc.Models.{OtcSignal}
use divap_trader.Otc.Schedule.Defs.{second, leg_minute, on_day, leg_window_missed}
use divap_trader.Otc.Schedule.Window.{leg_window_missed_lem}
use divap_trader.Witnesses.Samples.{signal}

abbrev pub timed : OtcSignal
timed = record signal { entry_time = some (record { hour = 16; minute = 22 }) }

abbrev pub now : ℕ
now = 145381000000

pub minute_of_protection : leg_minute timed 1 ≡ some 983
unfolding leg_minute
minute_of_protection = refl

leg_window_missed_lem_example :
    (leg_window_missed timed 1 (pos 0) now ≡ true) ↔ ((0 + 1) * second + on_day now 983 ≤ now)
leg_window_missed_lem_example = leg_window_missed_lem timed 1 now 983 minute_of_protection 0
