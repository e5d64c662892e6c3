-- ===== src/Bankroll/Settings.antt =====
-- src/data/repositories/bankroll_repo.py: the table `bankroll_settings`, which has at most the row with
-- id 1, and the sums of the month and the week. A month is the text "%Y-%m" that the clock gives.
use divap_trader.Base.{
  String, Bool, true, false, Option, none, some, List, [], ◌∷◌, if◌then◌else◌, str_eq, not, is_some,
  option_or, leb, ltb, ◌&&◌,
}
use divap_trader.Decimals.{Decimal, whole, ◌⊕◌}
use divap_trader.Data.Trades.{Instant, Status, closed, TradeRecord, Trades}

pub record BankrollRow : Type 0 where
  pub active_profile_id : String
  pub active_profile_ids : Option (List String)
  pub monthly_target_usdt : Option Decimal
  pub goal_reached_at : Option Instant
  pub period_month : String

abbrev pub Bankroll : Type 0
Bankroll = Option BankrollRow

pub record BankrollRecord : Type 0 where
  pub active_profile_id : String
  pub active_profile_ids : List String
  pub monthly_target_usdt : Option Decimal
  pub goal_reached_at : Option Instant
  pub period_month : String

-- `tuple(str(item) for item in parsed if item)`
unfoldable pub keep_named : List String → List String
keep_named [] = []
keep_named (x ∷ xs) = if str_eq x "" then keep_named xs else x ∷ keep_named xs

unfoldable pub parsed_ids : String → Option (List String) → List String
unfolding keep_named
parsed_ids active none = active ∷ []
parsed_ids active (some []) = active ∷ []
parsed_ids active (some (x ∷ xs)) = keep_named (x ∷ xs)

abbrev pub or_default_ids : List String → List String
or_default_ids [] = "divap" ∷ []
or_default_ids ids = ids

-- `ids[0] if ids else d`
abbrev pub first_or : List String → String → String
first_or [] d = d
first_or (x ∷ xs) d = x

-- `x or d`, of a text that may be missing
abbrev pub text_or : Option String → String → String
text_or none d = d
text_or (some x) d = if str_eq x "" then d else x

-- `_row_to_record`
unfoldable pub row_to_record : BankrollRow → BankrollRecord
unfolding parsed_ids
row_to_record row =
    let ids = or_default_ids (parsed_ids row.active_profile_id row.active_profile_ids) in
    record {
      active_profile_id = text_or (some row.active_profile_id) (first_or ids "");
      active_profile_ids = ids;
      monthly_target_usdt = row.monthly_target_usdt;
      goal_reached_at = row.goal_reached_at;
      period_month = row.period_month;
    }

-- The row that UPSERT_BANKROLL_SQL leaves.
unfoldable pub upsert : String → List String → Option Decimal → String → Bankroll → BankrollRow
upsert primary ids target period none = record {
  active_profile_id = primary;
  active_profile_ids = some ids;
  monthly_target_usdt = target;
  goal_reached_at = none;
  period_month = period;
}
upsert primary ids target period (some row) = record {
  active_profile_id = primary;
  active_profile_ids = some ids;
  monthly_target_usdt = target;
  goal_reached_at = if str_eq row.period_month period then row.goal_reached_at else none;
  period_month = period;
}

-- The row of the month: made where there is none, and with the goal open again in a new month.
unfoldable pub current_row : String → Bankroll → BankrollRow
unfolding upsert
current_row period none = upsert "divap_ativo" ("divap_ativo" ∷ []) none period none
current_row period (some row) =
    if str_eq row.period_month period
    then row
    else record row { period_month = period; goal_reached_at = none }

unfoldable pub get_settings : String → Bankroll → BankrollRecord × Bankroll
unfolding current_row row_to_record
get_settings period db = let row = current_row period db in (row_to_record row, some row)

abbrev chosen_ids : Option (List String) → BankrollRecord → List String
chosen_ids none current = current.active_profile_ids
chosen_ids (some ids) current = ids

abbrev chosen_primary : Option String → Option (List String) → BankrollRecord → String
chosen_primary active none current = text_or active current.active_profile_id
chosen_primary active (some ids) current = first_or ids current.active_profile_id

-- The month is read twice, for the settings and for the upsert.
unfoldable pub update_settings :
    String
    → String
    → Option String
    → Option (List String)
    → Option Decimal
    → Bankroll
    → BankrollRecord × Bankroll
unfolding get_settings
update_settings period period_later active ids target db =
    let (current, stored) = get_settings period db in
    let row =
      upsert (chosen_primary active ids current) (chosen_ids ids current)
        (if is_some target then target else current.monthly_target_usdt) period_later stored in
    (row_to_record row, some row)

-- SET_GOAL_REACHED_SQL changes a row whose goal is open, and no other.
unfoldable pub mark_goal_reached : Instant → Bankroll → Option BankrollRecord × Bankroll
unfolding row_to_record
mark_goal_reached now none = (none, none)
mark_goal_reached now (some row) =
    if is_some row.goal_reached_at
    then (none, some row)
    else let marked = record row { goal_reached_at = some now } in
      (some (row_to_record marked), some marked)

abbrev is_closed : Status → Bool
is_closed closed = true
is_closed _ = false

abbrev closed_within : Instant → Instant → Option Instant → Bool
closed_within from to none = false
closed_within from to (some at) = leb from at && ltb at to

-- COALESCE(SUM(pnl_usdt), 0) of the trades that were closed from one time to another, but those of IQ
-- Option; MONTHLY_PNL_SQL and WEEKLY_PNL_SQL give the bounds of the month and of the week.
unfoldable pub pnl_between : Instant → Instant → List TradeRecord → Decimal
pnl_between from to [] = whole 0
pnl_between from to (t ∷ ts) =
    let rest = pnl_between from to ts in
    if is_closed t.status && not (str_eq t.venue "iqoption") && closed_within from to t.closed_at
    then option_or t.pnl_usdt (whole 0) ⊕ rest
    else rest

-- The month from its first instant, which the database knows, to that of the next.
unfoldable pub monthly_pnl_usdt : Instant × Instant → Trades → Decimal
unfolding pnl_between
monthly_pnl_usdt (from, to) db = pnl_between from to db.rows
