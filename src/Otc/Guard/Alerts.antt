-- ===== src/Otc/Guard/Alerts.antt =====
-- The alert of a stop (src/otc/stop_alert.py) and the evaluation over stored data
-- (`evaluate_otc_stop` of src/otc/guard.py). The dedup keys live in Redis with a lifetime of a day,
-- a key carries its date, and so it is never asked for again after it has expired.
use divap_trader.Base.{
  Bool, true, false, ◌&&◌, ◌||◌, not, Option, none, some, List, [], ◌∷◌, ◌==◌, if◌then◌else◌,
}
use divap_trader.Decimals.{Decimal}
use divap_trader.Data.Trades.{Instant}
use divap_trader.Otc.Models.{OtcSettingsRecord}
use divap_trader.Otc.Session.{Date, Sessions, OtcDailySessionRecord, ensure_daily_session}
use divap_trader.Otc.Guard.Defs.{StopReason, stop_win, stop_loss, StopConfig, decide_stop}

-- A message: the date, the reason and the day's result.
pub record Alert : Type 0 where
  pub date : Date
  pub reason : StopReason
  pub day_pnl : Decimal

pub record Alerts : Type 0 where
  pub keys : List (Date × StopReason)
  pub sent : List Alert

abbrev pub same_reason : StopReason → StopReason → Bool
same_reason stop_win stop_win = true
same_reason stop_loss stop_loss = true
same_reason _ _ = false

unfoldable pub has_key : Date → StopReason → List (Date × StopReason) → Bool
has_key d r [] = false
has_key d r ((k, s) ∷ ks) = k == d && same_reason s r || has_key d r ks

-- What Redis does with a command: it answers; it carries the command out, and the answer is lost; or it does
-- nothing. The last two raise.
pub data Redis : Type 0 where
  answers loses_answer fails : Redis

-- SET key NX: true when the key was not there.
unfoldable pub set_nx : Date → StopReason → Alerts → Bool × Alerts
unfolding has_key
set_nx d r a =
    if has_key d r a.keys then (false, a) else (true, record a { keys = (d, r) ∷ a.keys })

-- `none` where the command raises, which the source lets through.
unfoldable pub should_send_stop_alert : Redis → Date → StopReason → Alerts → Option Bool × Alerts
unfolding set_nx
should_send_stop_alert answers d r a = let (fresh, marked) = set_nx d r a in (some fresh, marked)
should_send_stop_alert loses_answer d r a = (none, (set_nx d r a).1)
should_send_stop_alert fails d r a = (none, a)

-- What the Telegram client answers: it may not be configured, refuse the message, or raise.
pub data Telegram : Type 0 where
  unconfigured accepts refuses raises : Telegram

-- The message of a fresh alert; what raises here is caught.
unfoldable pub send_fresh :
    Telegram → StopReason → Decimal → Date → Option Bool → Alerts → Option Bool × Alerts
send_fresh telegram reason pnl date none a = (none, a)
send_fresh telegram reason pnl date (some false) a = (some false, a)
send_fresh unconfigured reason pnl date (some true) a = (some false, a)
send_fresh refuses reason pnl date (some true) a = (some false, a)
send_fresh raises reason pnl date (some true) a = (some false, a)
send_fresh accepts reason pnl date (some true) a =
    (some true, record a { sent = record { date = date; reason = reason; day_pnl = pnl } ∷ a.sent })

-- `none` where should_send_stop_alert raises.
unfoldable pub notify_otc_stop_if_needed :
    Redis → Telegram → StopReason → Decimal → Date → Alerts → Option Bool × Alerts
unfolding should_send_stop_alert send_fresh
notify_otc_stop_if_needed redis telegram reason pnl date a =
    let (fresh, marked) = should_send_stop_alert redis date reason a in
    send_fresh telegram reason pnl date fresh marked

-- What the stop evaluation reads and writes.
pub record GuardState : Type 0 where
  pub sessions : Sessions
  pub alerts : Alerts

-- What the outside answers during one evaluation; `none` where the call raises.
pub record GuardInputs : Type 0 where
  pub settings : Option OtcSettingsRecord
  pub today : Date
  pub balance : Option Decimal
  pub now : Instant
  pub day_pnl : Option Decimal
  pub redis : Redis
  pub telegram : Telegram

abbrev pub stop_config : OtcSettingsRecord → OtcDailySessionRecord → StopConfig
stop_config cfg session = record {
  stop_win_enabled = cfg.stop_win_enabled;
  stop_loss_enabled = cfg.stop_loss_enabled;
  daily_goal_usd = cfg.daily_goal_usd;
  initial_bankroll_usd = some session.reference_balance_usd;
  daily_stop_loss_pct = cfg.daily_stop_loss_pct;
  daily_stop_win_pct = cfg.daily_stop_win_pct;
  stop_win_usd = some session.stop_win_usd;
  stop_loss_usd = some session.stop_loss_usd;
}

-- A notification that raises leaves the trade free, although the stop is reached.
abbrev pub reason_if_notified : StopReason → Option Bool → Option StopReason
reason_if_notified reason none = none
reason_if_notified reason (some sent) = some reason

unfoldable pub announce :
    GuardInputs → Decimal → GuardState → Option StopReason → Option StopReason × GuardState
unfolding notify_otc_stop_if_needed
announce i pnl s none = (none, s)
announce i pnl s (some reason) =
    let (sent, after) = notify_otc_stop_if_needed i.redis i.telegram reason pnl i.today s.alerts in
    (reason_if_notified reason sent, record s { alerts = after })

-- The day's result against the session; a step that raises leaves the trade free.
unfoldable pub judge :
    GuardInputs
    → OtcSettingsRecord
    → Option OtcDailySessionRecord
    → Option Decimal
    → GuardState
    → Option StopReason × GuardState
unfolding announce
judge i cfg none pnl s = (none, s)
judge i cfg (some session) none s = (none, s)
judge i cfg (some session) (some pnl) s =
    announce i pnl s (decide_stop pnl (stop_config cfg session))

unfoldable pub evaluate_with :
    GuardInputs → Option OtcSettingsRecord → GuardState → Option StopReason × GuardState
unfolding judge
evaluate_with i none s = (none, s)
evaluate_with i (some cfg) s =
    if not (cfg.stop_win_enabled || cfg.stop_loss_enabled)
    then (none, s)
    else let (session, after) = ensure_daily_session cfg i.today i.balance i.now s.sessions in
      judge i cfg session i.day_pnl (record s { sessions = after })

unfoldable pub evaluate_otc_stop : GuardInputs → GuardState → Option StopReason × GuardState
unfolding evaluate_with
evaluate_otc_stop i s = evaluate_with i i.settings s

-- `check_and_notify_otc_stop` of src/otc/stop_alert.py repeats the evaluation step for step.
unfoldable pub check_and_notify_otc_stop : GuardInputs → GuardState → Option StopReason × GuardState
unfolding evaluate_with
check_and_notify_otc_stop i s = evaluate_with i i.settings s
