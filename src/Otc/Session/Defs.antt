-- ===== src/Otc/Session/Defs.antt =====
-- The table of daily sessions, one row to a date, and the functions that fill it.
use divap_trader.Base.{ℕ, ◌==◌, Option, none, some, List, [], ◌∷◌, ◌++◌, ltb, if◌then◌else◌, String}
use divap_trader.Decimals.{Decimal, whole, is_pos, is_truthy}
use divap_trader.Data.Trades.{Instant}
use divap_trader.Otc.Models.{OtcSettingsRecord}
use divap_trader.Otc.Stake.{
  resolve_stake_from_settings, stake_max_usd_for_profile, stop_pcts_for_profile,
  compute_session_limits,
}

-- Where the reference balance came from.
pub data Source : Type 0 where
  live fallback : Source

-- A date, as the number of its day.
abbrev pub Date : Type 0
Date = ℕ

pub record OtcDailySessionRecord : Type 0 where
  pub session_date : Date
  pub reference_balance_usd : Decimal
  pub base_stake_usd : Decimal
  pub stop_win_usd : Decimal
  pub stop_loss_usd : Decimal
  pub stake_pct : Decimal
  pub stop_win_pct : Decimal
  pub stop_loss_pct : Decimal
  pub stake_risk_profile : String
  pub source : Source
  pub captured_at : Instant

abbrev pub Sessions : Type 0
Sessions = List OtcDailySessionRecord

unfoldable pub get_for_date : Date → Sessions → Option OtcDailySessionRecord
get_for_date d [] = none
get_for_date d (s ∷ ss) = if s.session_date == d then some s else get_for_date d ss

abbrev later_of : OtcDailySessionRecord → Option OtcDailySessionRecord → OtcDailySessionRecord
later_of s none = s
later_of s (some t) = if ltb s.session_date t.session_date then t else s

-- ORDER BY session_date DESC LIMIT 1
unfoldable pub get_latest : Sessions → Option OtcDailySessionRecord
get_latest [] = none
get_latest (s ∷ ss) = some (later_of s (get_latest ss))

-- INSERT ... ON CONFLICT (session_date) DO NOTHING, and the row that stands there afterwards.
unfoldable pub upsert : OtcDailySessionRecord → Sessions → OtcDailySessionRecord × Sessions
unfolding get_for_date
upsert s ss = elim (get_for_date s.session_date ss) [
  | some old ↦ (old, ss)
  | none ↦ (s, ss ++ s ∷ [])
]

abbrev pub default_stake_min_usd : Decimal
default_stake_min_usd = whole 1

-- `x or d`: d also stands in for a zero.
abbrev pub truthy_or : Option Decimal → Decimal → Decimal
truthy_or none d = d
truthy_or (some x) d = if is_truthy x then x else d

-- `none` where a limit computation raises.
unfoldable pub build_session_from_balance :
    Date → Decimal → OtcSettingsRecord → Source → Instant → Option OtcDailySessionRecord
build_session_from_balance date balance settings source at =
    let (pct, profile) =
      resolve_stake_from_settings (some settings.stake_risk_profile) settings.stake_pct in
    let stake_min = truthy_or settings.stake_min_usd default_stake_min_usd in
    let stake_max = truthy_or settings.stake_max_usd (stake_max_usd_for_profile balance profile) in
    let (win_pct, loss_pct) = stop_pcts_for_profile profile in
    elim (compute_session_limits balance pct stake_min stake_max win_pct loss_pct) [
      | none ↦ none
      | some limits ↦ some (record {
        session_date = date;
        reference_balance_usd = limits.reference_balance_usd;
        base_stake_usd = limits.base_stake_usd;
        stop_win_usd = limits.stop_win_usd;
        stop_loss_usd = limits.stop_loss_usd;
        stake_pct = pct;
        stop_win_pct = win_pct;
        stop_loss_pct = loss_pct;
        stake_risk_profile = profile;
        source = source;
        captured_at = at;
      })
    ]

-- The positive value of an amount that may be missing.
abbrev pub positive : Option Decimal → Option Decimal
positive none = none
positive (some x) = if is_pos x then some x else none

abbrev pub balance_of : Option OtcDailySessionRecord → Option Decimal
balance_of none = none
balance_of (some s) = some s.reference_balance_usd

abbrev pub with_source :
    Source → Option Decimal → Option (Decimal × Source) → Option (Decimal × Source)
with_source source none other = other
with_source source (some x) other = some (x, source)

-- `fetched` is what the balance fetcher returns, `none` where it raises; the result `none` is the
-- RuntimeError at the end.
unfoldable pub resolve_reference_balance :
    OtcSettingsRecord → Option Decimal → Sessions → Option (Decimal × Source)
unfolding get_latest
resolve_reference_balance settings fetched sessions = with_source live (positive fetched) (
    with_source fallback (positive settings.initial_bankroll_usd)
      (with_source fallback (positive (balance_of (get_latest sessions))) none))

unfoldable pub store_session :
    Sessions → Option OtcDailySessionRecord → Option OtcDailySessionRecord × Sessions
unfolding upsert
store_session sessions none = (none, sessions)
store_session sessions (some s) = let (row, after) = upsert s sessions in (some row, after)

unfoldable pub create_session :
    OtcSettingsRecord
    → Date
    → Instant
    → Sessions
    → Option (Decimal × Source)
    → Option OtcDailySessionRecord × Sessions
unfolding store_session
create_session settings date at sessions none = (none, sessions)
create_session settings date at sessions (some (reference, source)) =
    store_session sessions (build_session_from_balance date reference settings source at)

unfoldable pub ensure_from :
    OtcSettingsRecord
    → Date
    → Option Decimal
    → Instant
    → Sessions
    → Option OtcDailySessionRecord
    → Option OtcDailySessionRecord × Sessions
unfolding create_session
ensure_from settings date fetched at sessions (some existing) = (some existing, sessions)
ensure_from settings date fetched at sessions none =
    create_session settings date at sessions (resolve_reference_balance settings fetched sessions)

-- The session of the date, made from a snapshot when there is none; `none` where a step raises.
unfoldable pub ensure_daily_session :
    OtcSettingsRecord
    → Date
    → Option Decimal
    → Instant
    → Sessions
    → Option OtcDailySessionRecord × Sessions
unfolding ensure_from
ensure_daily_session settings date fetched at sessions =
    ensure_from settings date fetched at sessions (get_for_date date sessions)
