-- ===== src/Bankroll/Goal.antt =====
-- build_bankroll_payload (src/bankroll/service.py): the results of the month against its target, and the
-- mark of a reached goal. The number of weeks of the month and the ISO weeks of today and of the first of
-- the month, which the calendar gives, and the balance, which the exchange gives or fails to give, are
-- arguments.
use divap_trader.Base.{
  ℕ, ◌≡◌, String, Bool, true, false, ◌||◌, ◌&&◌, not, Option, none, some, is_some, if◌then◌else◌,
  arith,
}
use divap_trader.Base.Int.{ℤ, pos, ◌-ℤ◌, ◌+ℤ◌, ltb_ℤ}
use divap_trader.Decimals.{
  Decimal, whole, ◌⊖◌, ◌⊗◌, quotient, quantize, to_cents, maximum, is_pos, le,
}
use divap_trader.Data.Trades.{Instant, Trades}
use divap_trader.Bankroll.Settings.{
  Bankroll, BankrollRow, BankrollRecord, get_settings, current_row, row_to_record,
  mark_goal_reached, pnl_between,
}

pub record Progress : Type 0 where
  pub weekly_target : Decimal
  pub weekly_needed : Decimal
  pub progress_pct : Decimal

pub record BankrollPayload : Type 0 where
  pub settings : BankrollRecord
  pub monthly_pnl_usdt : Decimal
  pub weekly_pnl_usdt : Decimal
  pub progress : Option Progress
  pub goal_reached : Bool
  pub balance_usdt : Option Decimal

-- `_week_of_month`, of the ISO week of today and that of the first of the month. In January the latter may
-- be the last of the year before, and the difference is then below 0.
abbrev pub week_of_month : ℕ → ℕ → ℤ
week_of_month today first = pos today -ℤ pos first +ℤ pos 1

-- `max(1, n)`
abbrev at_least_one : ℤ → ℤ
at_least_one n = if ltb_ℤ (pos 1) n then n else pos 1

-- Decimal(n), of an integer
abbrev of_int : ℤ → Decimal
of_int n = record { num = n; scale = 0 }

unfoldable pub progress_to : Decimal → Decimal → ℕ → ℤ → Progress
progress_to target pnl weeks week =
    let remaining = maximum (whole 0) (target ⊖ pnl) in
    let weeks_left = at_least_one (pos weeks -ℤ week +ℤ pos 1) in
    record {
      weekly_target = to_cents (quotient target (whole weeks));
      weekly_needed = to_cents (quotient remaining (of_int weeks_left));
      progress_pct = quantize 1 (quotient pnl target ⊗ whole 100);
    }

unfoldable pub progress_of : Option Decimal → Decimal → ℕ → ℤ → Option Progress
unfolding progress_to
progress_of none pnl weeks week = none
progress_of (some t) pnl weeks week = if is_pos t then some (progress_to t pnl weeks week) else none

abbrev pub meets : Option Decimal → Decimal → Bool
meets none pnl = false
meets (some t) pnl = is_pos t && le t pnl

-- The result of mark_goal_reached counts only where it is a record.
abbrev marked_or :
    BankrollRecord × Bankroll
    → Option BankrollRecord × Bankroll
    → (BankrollRecord × Bool) × Bankroll
marked_or (current, stored) (none, db) = ((current, false), db)
marked_or (current, stored) (some updated, db) = ((updated, true), db)

unfoldable pub mark_if_met :
    Instant → Decimal → BankrollRecord × Bankroll → (BankrollRecord × Bool) × Bankroll
unfolding mark_goal_reached
mark_if_met now pnl (current, stored) =
    let reached = is_some current.goal_reached_at in
    if meets current.monthly_target_usdt pnl && not reached
    then marked_or (current, stored) (mark_goal_reached now stored)
    else ((current, reached), stored)

abbrev cents_or_none : Option Decimal → Option Decimal
cents_or_none none = none
cents_or_none (some d) = some (quantize 2 d)

unfoldable pub build_bankroll_payload :
    String
    → Instant
    → Instant × Instant
    → Instant × Instant
    → ℕ
    → ℕ × ℕ
    → Option Decimal
    → Trades
    → Bankroll
    → BankrollPayload × Bankroll
unfolding get_settings pnl_between progress_of mark_if_met
build_bankroll_payload period now month week weeks iso balance trades db =
    let (current, stored) = get_settings period db in
    let monthly = pnl_between month.0 month.1 trades.rows in
    let ((settings, reached), after) = mark_if_met now monthly (current, stored) in
    (
      record {
        settings = settings;
        monthly_pnl_usdt = quantize 2 monthly;
        weekly_pnl_usdt = quantize 2 (pnl_between week.0 week.1 trades.rows);
        progress =
            progress_of current.monthly_target_usdt monthly weeks (week_of_month iso.0 iso.1);
        goal_reached = reached;
        balance_usdt = cents_or_none balance;
      },
      after,
    )

abbrev pub goal_marked : Bankroll → Bool
goal_marked none = false
goal_marked (some row) = is_some row.goal_reached_at

module _ (now : Instant) (pnl : Decimal) (row : BankrollRow) where
  marks :
      let ((settings, reached), after) = mark_if_met now pnl (row_to_record row, some row) in
      (reached ≡ (is_some row.goal_reached_at || meets row.monthly_target_usdt pnl))
      × (goal_marked after ≡ reached)
  unfolding mark_if_met mark_goal_reached row_to_record
  marks = (ground arith, ground arith)

-- The payload says that the goal is reached exactly when it was marked in this month already or the results
-- of the month reach a positive target; and then, and only then, the row of the month has its mark.
pub build_bankroll_payload-goal :
    (period : String) (now : Instant) (month week : Instant × Instant) (weeks : ℕ) (iso : ℕ × ℕ)
    (balance : Option Decimal) (trades : Trades) (db : Bankroll)
    → let (payload, after) =
        build_bankroll_payload period now month week weeks iso balance trades db in
      let current = current_row period db in
      (payload.goal_reached ≡ (
        is_some current.goal_reached_at
        || meets current.monthly_target_usdt (pnl_between month.0 month.1 trades.rows)))
      × (goal_marked after ≡ payload.goal_reached)
unfolding build_bankroll_payload get_settings
build_bankroll_payload-goal period now month week weeks iso balance trades db =
    marks now (pnl_between month.0 month.1 trades.rows) (current_row period db)
