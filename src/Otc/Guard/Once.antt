-- ===== src/Otc/Guard/Once.antt =====
-- The alerts of a date and a reason.
use divap_trader.Base.{
  ℕ, suc, ◌≤◌, ◌≡◌, ◌≢◌, some, true, ◌&&◌, List, [], ◌∷◌, ◌==◌, arith, if◌then◌else◌,
}
use divap_trader.Decimals.{Decimal}
use divap_trader.Otc.Session.{Date}
use divap_trader.Otc.Guard.Defs.{StopReason, stop_win, stop_loss}
use divap_trader.Otc.Guard.Alerts.{
  Alert, Alerts, Redis, fails, Telegram, same_reason, has_key, set_nx, should_send_stop_alert,
  send_fresh, notify_otc_stop_if_needed,
}

unfoldable pub count_sent : Date → StopReason → List Alert → ℕ
count_sent d r [] = 0
count_sent d r (a ∷ sent) =
    let rest = count_sent d r sent in
    if a.date == d && same_reason a.reason r then suc rest else rest

-- As many alerts of a date and reason went out as there are keys for them, at most one.
pub record IsOnce (a : Alerts) : Type 0 where
  pub once :
      (d : Date) (r : StopReason) → count_sent d r a.sent ≤ (if has_key d r a.keys then 1 else 0)

-- From a state with at most one alert to each date and reason every notification leads to such a state,
-- whatever Redis and Telegram do.
pub notify_otc_stop_if_needed-IsOnce :
    (redis : Redis) (t : Telegram) (r : StopReason) (pnl : Decimal) (d : Date) (a : Alerts)
    → IsOnce a
    → IsOnce (notify_otc_stop_if_needed redis t r pnl d a).1
unfolding notify_otc_stop_if_needed should_send_stop_alert send_fresh set_nx has_key count_sent
notify_otc_stop_if_needed-IsOnce redis t r pnl d a h = record {
  once = λ k s. ground (arith, h.once k s, h.once d r);
}

-- After a notification whose command Redis carried out, whatever became of its answer and of the message, a
-- second one for the same date and reason sends nothing and changes nothing.
pub notify_otc_stop_if_needed_again :
    (redis redis' : Redis) (t t' : Telegram) (r : StopReason) (pnl pnl' : Decimal) (d : Date)
    (a : Alerts)
    → redis ≢ fails
    → let after = (notify_otc_stop_if_needed redis t r pnl d a).1 in
      let again = notify_otc_stop_if_needed redis' t' r pnl' d after in
      (again.0 ≢ some true) × (again.1 ≡ after)
unfolding notify_otc_stop_if_needed should_send_stop_alert send_fresh set_nx has_key
notify_otc_stop_if_needed_again redis redis' t t' stop_win pnl pnl' d a h =
    (ground arith, ground arith)
notify_otc_stop_if_needed_again redis redis' t t' stop_loss pnl pnl' d a h =
    (ground arith, ground arith)
