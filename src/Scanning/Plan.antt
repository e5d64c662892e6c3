-- ===== src/Scanning/Plan.antt =====
-- src/core/scan_plan.py: the plans of the active profiles, and the test that an interval has passed.
use divap_trader.Base.{
  String, Bool, true, Option, none, some, List, [], ◌∷◌, if◌then◌else◌, ◌&&◌, not, text_in,
}
use divap_trader.Base.Int.{ℤ, pos, leb_ℤ, ◌-ℤ◌, ◌*ℤ◌}
use divap_trader.Data.Trades.{Instant}
use divap_trader.Profiles.Models.{TradingProfile}
use divap_trader.Bankroll.Settings.{Bankroll, get_settings}

pub record ScanPlan : Type 0 where
  pub profile_id : String
  pub profile_name : String
  pub interval_seconds : ℤ
  pub monitor_interval_seconds : ℤ
  pub timeframes : List String
  pub symbols : List String

abbrev pub default_symbols : List String
default_symbols = "BTCUSDT" ∷ "ETHUSDT" ∷ "BNBUSDT" ∷ "SOLUSDT" ∷ "XRPUSDT" ∷ "ADAUSDT" ∷ []

-- `_resolve_symbols`, of profile.scan.symbols
abbrev pub resolve_symbols : Option (List String) → List String
resolve_symbols none = default_symbols
resolve_symbols (some []) = default_symbols
resolve_symbols (some (x ∷ xs)) = x ∷ xs

abbrev pub plan_of : TradingProfile → ScanPlan
plan_of profile = record {
  profile_id = profile.id;
  profile_name = profile.name;
  interval_seconds = profile.scan.interval_seconds;
  monitor_interval_seconds = profile.scan.monitor_interval_seconds;
  timeframes = profile.scan.timeframes;
  symbols = resolve_symbols profile.scan.symbols;
}

unfoldable pub is_scanned : TradingProfile → Bool
is_scanned profile = profile.scan.enabled && not (text_in profile.kind ("otc" ∷ "tasso" ∷ []))

abbrev pub plan_if_scanned : Option TradingProfile → List ScanPlan → List ScanPlan
plan_if_scanned none plans = plans
plan_if_scanned (some profile) plans = if is_scanned profile then plan_of profile ∷ plans else plans

-- The loop over the active profiles, with the ids that were seen.
unfoldable pub plans_of :
    (String → Option TradingProfile) → List String → List String → List ScanPlan
plans_of load seen [] = []
plans_of load seen (id ∷ ids) =
    let rest = plans_of load seen ids in
    let rest_after = plans_of load (id ∷ seen) ids in
    if text_in id seen then rest else plan_if_scanned (load id) rest_after

abbrev pub or_profile : Option TradingProfile → Option TradingProfile → Option TradingProfile
or_profile none other = other
or_profile (some profile) other = some profile

abbrev pub or_scanned : Option TradingProfile → Option TradingProfile → Option TradingProfile
or_scanned none divap = divap
or_scanned (some profile) divap = if is_scanned profile then some profile else divap

abbrev pub plan_or_default : Option TradingProfile → ScanPlan
plan_or_default none = record {
  profile_id = "divap";
  profile_name = "DIVAP";
  interval_seconds = pos 900;
  monitor_interval_seconds = pos 300;
  timeframes = "1h" ∷ "4h" ∷ "1d" ∷ [];
  symbols = default_symbols;
}
plan_or_default (some profile) = plan_of profile

unfoldable pub get_active_scan_plan :
    (String → Option TradingProfile) → String → Bankroll → ScanPlan × Bankroll
unfolding get_settings
get_active_scan_plan load period db =
    let (settings, stored) = get_settings period db in
    (
      plan_or_default
          (or_scanned (or_profile (load settings.active_profile_id) (load "divap")) (load "divap")),
      stored,
    )

abbrev pub fallback :
    (String → Option TradingProfile) → String → List ScanPlan → Bankroll → List ScanPlan × Bankroll
fallback load period [] db =
    let (plan, stored) = get_active_scan_plan load period db in (plan ∷ [], stored)
fallback load period (plan ∷ plans) db = (plan ∷ plans, db)

-- Where no active profile is scanned, the settings are read again, in the month of that moment.
unfoldable pub get_active_scan_plans :
    (String → Option TradingProfile) → String → String → Bankroll → List ScanPlan × Bankroll
unfolding get_settings plans_of get_active_scan_plan
get_active_scan_plans load period period_later db =
    let (settings, stored) = get_settings period db in
    fallback load period_later (plans_of load [] settings.active_profile_ids) stored

-- Times are in microseconds, so that total_seconds() >= n compares them with 1000000 n.
unfoldable pub should_run_interval : ℤ → Option Instant → Instant → Bool
should_run_interval interval none now = true
should_run_interval interval (some last) now = leb_ℤ (interval *ℤ pos 1000000) (pos now -ℤ pos last)

unfoldable pub should_run_scan : ScanPlan → Option Instant → Instant → Bool
unfolding should_run_interval
should_run_scan plan last now = should_run_interval plan.interval_seconds last now
