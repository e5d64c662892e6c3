-- ===== src/Witnesses/Days.antt =====
-- The theorems on stops, sessions and stakes at the sample settings.
use divap_trader.Base.{inl, ◌≡◌, ◌≢◌, refl, true, none, some, [], ◌∷◌, arith, if◌then◌else◌}
use divap_trader.Base.Int.{pos}
use divap_trader.Decimals.{whole, fixed, le, lt, ◌⊗◌, hundredth, quantize, maximum, minimum}
use divap_trader.Otc.Martingale.{stake_for_level}
use divap_trader.Otc.Martingale.Ladder.{stake_for_level_mono}
use divap_trader.Otc.Guard.Defs.{StopConfig, stop_win, stop_loss, decide_stop}
use divap_trader.Otc.Guard.Alerts.{
  has_key, notify_otc_stop_if_needed, answers, loses_answer, raises, accepts,
}
use divap_trader.Otc.Guard.Limits.{decide_stop_lem, reaches, falls_to, win_limit, loss_limit}
use divap_trader.Otc.Guard.Once.{
  IsOnce, count_sent, notify_otc_stop_if_needed-IsOnce, notify_otc_stop_if_needed_again,
}
use divap_trader.Otc.Session.{ensure_daily_session, get_for_date, live, OtcDailySessionRecord}
use divap_trader.Otc.Session.Snapshot.{ensure_daily_session_locks, ensure_daily_session_total}
use divap_trader.Otc.Stake.{resolve_daily_base_stake}
use divap_trader.Witnesses.Samples.{martingale, settings, no_alerts}

abbrev stops : StopConfig
stops = record {
  stop_win_enabled = true;
  stop_loss_enabled = true;
  daily_goal_usd = some (whole 30);
  initial_bankroll_usd = some (whole 1000);
  daily_stop_loss_pct = some (whole 3);
  daily_stop_win_pct = some (whole 2);
  stop_win_usd = none;
  stop_loss_usd = none;
}

decide_stop_lem_example : decide_stop (whole 25) stops ≡ (
    if reaches (whole 25) (win_limit stops)
    then some stop_win
    else if falls_to (whole 25) (loss_limit stops)
    then some stop_loss
    else none)
decide_stop_lem_example = decide_stop_lem (whole 25) stops

no_alerts-IsOnce : IsOnce no_alerts
unfolding count_sent has_key
no_alerts-IsOnce = record { once = λ d r. omega arith }

notify_otc_stop_if_needed-IsOnce_example :
    IsOnce (notify_otc_stop_if_needed answers accepts stop_win (whole 25) 20000 no_alerts).1
notify_otc_stop_if_needed-IsOnce_example =
    notify_otc_stop_if_needed-IsOnce answers accepts stop_win (whole 25) 20000 no_alerts
      no_alerts-IsOnce

notify_otc_stop_if_needed_again_example :
    let after =
      (notify_otc_stop_if_needed loses_answer raises stop_win (whole 25) 20000 no_alerts).1 in
    let again = notify_otc_stop_if_needed answers accepts stop_win (whole 26) 20000 after in
    (again.0 ≢ some true) × (again.1 ≡ after)
notify_otc_stop_if_needed_again_example =
    notify_otc_stop_if_needed_again loses_answer answers raises accepts stop_win (whole 25)
      (whole 26) 20000 no_alerts (λ e. ground arith)

abbrev day_session : OtcDailySessionRecord
day_session = record {
  session_date = 19999;
  reference_balance_usd = whole 900;
  base_stake_usd = whole 9;
  stop_win_usd = whole 18;
  stop_loss_usd = whole 27;
  stake_pct = whole 1;
  stop_win_pct = whole 2;
  stop_loss_pct = whole 3;
  stake_risk_profile = "moderate";
  source = live;
  captured_at = 1;
}

ensure_daily_session_total_example :
    (ensure_daily_session settings 20000 (some (whole 800)) 7 (day_session ∷ [])).0 ≢ none
ensure_daily_session_total_example =
    ensure_daily_session_total settings 20000 (some (whole 800)) 7 (day_session ∷ []) (whole 800)
      refl (inl refl)

-- Of the day that has its session already.
found :
    (ensure_daily_session settings 19999 (some (whole 800)) 7 (day_session ∷ [])).0
    ≡ some day_session
unfolding ensure_daily_session get_for_date
found = refl

ensure_daily_session_locks_example :
    let after = (ensure_daily_session settings 19999 (some (whole 800)) 7 (day_session ∷ [])).1 in
    ensure_daily_session settings 19999 none 8 after ≡ (some day_session, after)
ensure_daily_session_locks_example =
    ensure_daily_session_locks settings settings 19999 (some (whole 800)) none 7 8
      (day_session ∷ []) found

grows : le (whole 1) martingale.multiplier ≡ true
unfolding le
grows = refl

stake_for_level_mono_example :
    le (stake_for_level (whole 5) martingale (pos 1)) (stake_for_level (whole 5) martingale (pos 2))
    ≡ true
stake_for_level_mono_example =
    stake_for_level_mono (whole 5) martingale 2 refl (omega arith) refl grows 1 2 (omega arith)

stake_of_day :
    resolve_daily_base_stake (whole 1000) (fixed 15 1) (whole 1) (whole 20) ≡ some (fixed 1500 2)
unfolding resolve_daily_base_stake quantize ◌⊗◌ hundredth le lt maximum minimum
stake_of_day = refl

floor_below : le (whole 1) (whole 20) ≡ true
unfolding le
floor_below = refl
