-- ===== src/Witnesses/Plans.antt =====
-- The theorems on the schedule of the scanner and the mark of the goal, at a clock that is a number.
use divap_trader.Base.{
  ℕ, ◌+◌, ◌≡◌, ◌||◌, String, true, Option, none, some, [], ◌∷◌, arith, str_eq, eq_iff,
  if◌then◌else◌, is_some,
}
use divap_trader.Base.Int.{pos}
use divap_trader.Decimals.{whole}
use divap_trader.Profiles.Models.{TradingProfile}
use divap_trader.Bankroll.Settings.{BankrollRow, get_settings, current_row, pnl_between}
use divap_trader.Bankroll.Goal.{
  build_bankroll_payload, build_bankroll_payload-goal, meets, goal_marked,
}
use divap_trader.Data.Trades.{Trades, closed}
use divap_trader.Scanning.Plan.{get_active_scan_plan, get_active_scan_plans}
use divap_trader.Scanning.Pass.{ScanPorts, ScanState, get_last_scan_at, scan_all_symbols}
use divap_trader.Scanning.Distinct.{IsSchedule, get_active_scan_plans-IsSchedule}
use divap_trader.Scanning.Spacing.{IsSteady, Spaced, scan_all_symbols-Spaced}
use divap_trader.Witnesses.Orders.{profile}
use divap_trader.Witnesses.Samples.{open_row}

-- The profile "divap" scans each quarter of an hour; no other profile is on disk.
abbrev scanning : TradingProfile
scanning = record profile {
  scan = record {
    enabled = true;
    interval_seconds = pos 900;
    timeframes = "1h" ∷ [];
    symbols = none;
    monitor_interval_seconds = pos 60;
  };
}

abbrev on_disk : String → Option TradingProfile
on_disk id = if str_eq id "divap" then some scanning else none

on_disk-named : (id : String) (found : TradingProfile) → on_disk id ≡ some found → found.id ≡ id
on_disk-named id found h = ground (arith, eq_iff id "divap", h)

abbrev row : BankrollRow
row = record {
  active_profile_id = "divap";
  active_profile_ids = some ("divap" ∷ "otc" ∷ "divap" ∷ []);
  monthly_target_usdt = some (whole 100);
  goal_reached_at = none;
  period_month = "2026-07";
}

-- A trade that was closed with 120 USDT.
abbrev closed_rows : Trades
closed_rows = record {
  next_id = 2;
  rows =
      record open_row {
        venue = "binance";
        status = closed;
        closed_at = some 42;
        pnl_usdt = some (whole 120);
      }
      ∷ [];
}

get_active_scan_plans-IsSchedule_example :
    let (settings, stored) = get_settings "2026-07" (some row) in
    IsSchedule on_disk settings.active_profile_ids
      (get_active_scan_plan on_disk "2026-07" stored).0
      (get_active_scan_plans on_disk "2026-07" "2026-07" (some row)).0
get_active_scan_plans-IsSchedule_example =
    get_active_scan_plans-IsSchedule on_disk on_disk-named "2026-07" "2026-07" (some row)

build_bankroll_payload-goal_example :
    let (payload, after) =
      build_bankroll_payload "2026-07" 50
        (10, 90)
        (40, 90)
        5
        (29, 27)
        (some (whole 300))
        closed_rows
        (some row) in
    let current = current_row "2026-07" (some row) in
    (payload.goal_reached ≡ (
      is_some current.goal_reached_at
      || meets current.monthly_target_usdt (pnl_between 10 90 closed_rows.rows)))
    × (goal_marked after ≡ payload.goal_reached)
build_bankroll_payload-goal_example =
    build_bankroll_payload-goal "2026-07" 50 (10, 90) (40, 90) 5 (29, 27) (some (whole 300))
      closed_rows (some row)

abbrev scan_ports : ScanPorts ℕ
scan_ports = record {
  now = λ w. (w, w + 1);
  run_divap_scan =
      λ plan w. (record { signals = 1; errors = 0; details = "BTCUSDT 1h" ∷ [] }, w + 5000000);
}

scan_ports-IsSteady : IsSteady scan_ports
scan_ports-IsSteady = record {
  reading = λ w. w;
  now_after = λ w. omega arith;
  now_before = λ w. omega arith;
  scan_later = λ plan w. omega arith;
}

abbrev scan_state : ScanState
scan_state = record {
  last_scan_at = some 1000000;
  last_profile_id = some "divap";
  last_result = none;
  profile_scans = ("divap", 1000000) ∷ [];
}

scan_all_symbols-Spaced_example :
    Spaced "divap"
      (get_active_scan_plans on_disk "2026-07" "2026-07" (some row)).0
      (scan_ports-IsSteady.reading 2000000000)
      (get_last_scan_at "divap" scan_state)
      (get_last_scan_at "divap"
        (scan_all_symbols scan_ports on_disk "2026-07" "2026-07"
          ((2000000000, scan_state), some row)).1.0.1)
scan_all_symbols-Spaced_example =
    scan_all_symbols-Spaced scan_ports scan_ports-IsSteady "divap" on_disk "2026-07" "2026-07"
      2000000000 scan_state (some row)
