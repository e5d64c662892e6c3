-- ===== src/Bankroll/Months.antt =====
-- The turn of the month and the goal.
use divap_trader.Base.{◌≡◌, refl, String, none, some, arith, ap, eq_iff}
use divap_trader.Bankroll.Settings.{
  Bankroll, BankrollRow, row_to_record, current_row, upsert, get_settings,
}

current_row_month :
    (period : String) (db : Bankroll) → (current_row period db).period_month ≡ period
unfolding current_row upsert
current_row_month period none = refl
current_row_month period (some row) = ground (arith, eq_iff row.period_month period)

pub current_row_kept :
    (period : String) (row : BankrollRow)
    → row.period_month ≡ period
    → current_row period (some row) ≡ row
unfolding current_row
current_row_kept period row h = ground (arith, eq_iff row.period_month period)

-- Reading the settings again within the month gives the same record and leaves the table as it is: the
-- row is made, or the goal opened for the new month, once.
pub get_settings_again :
    (period : String) (db : Bankroll)
    → get_settings period (get_settings period db).1 ≡ get_settings period db
unfolding get_settings
get_settings_again period db =
    ap (λ row. (row_to_record row, some row))
      (current_row_kept period (current_row period db) (current_row_month period db))
