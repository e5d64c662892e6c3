-- ===== src/Scanning/Pass.antt =====
-- record_scan and get_last_scan_at of src/core/scan_state.py, and run_profile_scan and scan_all_symbols of
-- src/alerts/scheduler.py. The world W is what the clock and the scans read and change; ScanPorts has the
-- clock and run_divap_scan. Of the result of a scan the counts and the details are kept.
use divap_trader.Base.{
  ℕ, ◌+◌, String, Bool, true, false, Option, none, some, List, [], ◌∷◌, ◌++◌, not, if◌then◌else◌,
  str_eq,
}
use divap_trader.Data.Trades.{Instant}
use divap_trader.Profiles.Models.{TradingProfile}
use divap_trader.Bankroll.Settings.{Bankroll}
use divap_trader.Scanning.Plan.{ScanPlan, should_run_scan, get_active_scan_plans}

pub record ScanResult : Type 0 where
  pub signals : ℕ
  pub errors : ℕ
  pub details : List String

pub record ScanPorts (W : Type 0) : Type 0 where
  pub now : W → Instant × W
  pub run_divap_scan : ScanPlan → W → ScanResult × W

-- The keys of Redis that hold the times and the last result.
pub record ScanState : Type 0 where
  pub last_scan_at : Option Instant
  pub last_profile_id : Option String
  pub last_result : Option (String × ScanResult)
  pub profile_scans : List (String × Instant)

abbrev pub lookup : String → List (String × Instant) → Option Instant
lookup id [] = none
lookup id ((key, at) ∷ rest) = if str_eq id key then some at else lookup id rest

unfoldable pub get_last_scan_at : String → ScanState → Option Instant
get_last_scan_at id s = lookup id s.profile_scans

unfoldable pub record_scan : String → ScanResult → Instant → ScanState → ScanState
record_scan id result now s = record {
  last_scan_at = some now;
  last_profile_id = some id;
  last_result = some (id, result);
  profile_scans = (id, now) ∷ s.profile_scans;
}

-- What a pass reports: the profiles it scanned, those it skipped, and the sums.
pub record ScanReport : Type 0 where
  pub scanned : List String
  pub skipped : List String
  pub signals : ℕ
  pub errors : ℕ
  pub details : List String

abbrev pub nothing_scanned : ScanReport
nothing_scanned = record { scanned = []; skipped = []; signals = 0; errors = 0; details = [] }

abbrev pub with_result : ScanPlan → ScanResult → ScanReport → ScanReport
with_result plan result report = record {
  scanned = plan.profile_id ∷ report.scanned;
  skipped = report.skipped;
  signals = result.signals + report.signals;
  errors = result.errors + report.errors;
  details = result.details ++ report.details;
}

abbrev pub with_skipped : ScanPlan → ScanReport → ScanReport
with_skipped plan report = record report { skipped = plan.profile_id ∷ report.skipped }

abbrev is_empty : List String → Bool
is_empty [] = true
is_empty (x ∷ xs) = false

module _ {W : Type 0} (x : ScanPorts W) where
  -- run_divap_scan and record_scan, which reads the clock again
  unfoldable pub scan_plan : ScanPlan → W × ScanState → ScanResult × (W × ScanState)
  unfolding record_scan
  scan_plan plan (w, s) =
      let (result, w1) = x.run_divap_scan plan w in
      let (at, w2) = x.now w1 in (result, (w2, record_scan plan.profile_id result at s))

  -- The loop of scan_all_symbols.
  unfoldable pub scan_due : List ScanPlan → W × ScanState → ScanReport × (W × ScanState)
  unfolding scan_plan should_run_scan get_last_scan_at
  scan_due [] (w, s) = (nothing_scanned, (w, s))
  scan_due (plan ∷ plans) (w, s) =
      let (at, w1) = x.now w in
      let (result, after) = scan_plan plan (w1, s) in
      let (rest, end) = scan_due plans after in
      let (rest_skipped, end_skipped) = scan_due plans (w1, s) in
      if should_run_scan plan (get_last_scan_at plan.profile_id s) at
      then (with_result plan result rest, end)
      else (with_skipped plan rest_skipped, end_skipped)

  -- The loop of run_profile_scan, which asks for no interval.
  unfoldable pub run_profile_scan : List ScanPlan → W × ScanState → ScanReport × (W × ScanState)
  unfolding scan_plan
  run_profile_scan [] ws = (nothing_scanned, ws)
  run_profile_scan (plan ∷ plans) ws =
      let (result, after) = scan_plan plan ws in
      let (rest, end) = run_profile_scan plans after in (with_result plan result rest, end)

-- The answer of scan_all_symbols. Its "profile_id" is the text of the ids, with commas between them.
pub record PassReport : Type 0 where
  pub was_skipped : Bool
  pub profile_ids : List String
  pub signals : ℕ
  pub errors : ℕ
  pub details : List String

-- `scanned_profiles or skipped_profiles`, with the early answer of a pass that scanned nothing
unfoldable pub report_of : ScanReport → PassReport
report_of report = elim report.scanned [
  | [] ↦ record {
    was_skipped = not (is_empty report.skipped);
    profile_ids = report.skipped;
    signals = 0;
    errors = 0;
    details = [];
  }
  | id ∷ ids ↦ record {
    was_skipped = false;
    profile_ids = id ∷ ids;
    signals = report.signals;
    errors = report.errors;
    details = report.details;
  }
]

module _ {W : Type 0} (x : ScanPorts W) where
  -- The heartbeat of the beat, which nothing here reads, is left out.
  unfoldable pub scan_all_symbols :
      (String → Option TradingProfile)
      → String
      → String
      → (W × ScanState) × Bankroll
      → PassReport × ((W × ScanState) × Bankroll)
  unfolding get_active_scan_plans scan_due report_of
  scan_all_symbols load period period_later (ws, db) =
      let (plans, stored) = get_active_scan_plans load period period_later db in
      let (report, after) = scan_due x plans ws in (report_of report, (after, stored))
