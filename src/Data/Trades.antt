-- ===== src/Data/Trades.antt =====
-- The table `trades` (src/data/repositories/trade_repo.py): the rows in the order of insertion, and
-- the statements that the trading code runs on them. A numeric column holds the value that it was
-- given, and the json column the tuple itself.
use divap_trader.Base.{
  ℕ, suc, ◌+◌, String, Bool, true, false, Option, none, some, List, [], ◌∷◌, ◌++◌, ◌==◌, ◌&&◌, ltb,
  if◌then◌else◌, option_or, str_eq, is_some,
}
use divap_trader.Base.Int.{ℤ}
use divap_trader.Decimals.{Decimal, whole}

-- A direction column; the code tests for "buy" and treats all else as a sale.
pub data Direction : Type 0 where
  buy sell : Direction
  other : String → Direction

abbrev pub is_buy : Direction → Bool
is_buy buy = true
is_buy _ = false

pub data Status : Type 0 where
  opened closed simulated : Status

abbrev pub is_open : Status → Bool
is_open opened = true
is_open _ = false

-- The reasons with which the code closes a trade.
pub data CloseReason : Type 0 where
  stop_loss take_profit time_stop expiry tasso_bot_stop : CloseReason
  expiry_level : ℕ → CloseReason

-- A point in time, in microseconds.
abbrev pub Instant : Type 0
Instant = ℕ

-- created_at is the table's default and nothing here reads it.
pub record TradeRecord : Type 0 where
  pub id : ℕ
  pub alert_id : Option ℕ
  pub symbol : String
  pub timeframe : String
  pub direction : Direction
  pub confidence : String
  pub status : Status
  pub entry_price : Option Decimal
  pub exit_price : Option Decimal
  pub stop_loss_price : Option Decimal
  pub take_profit_price : Option Decimal
  pub quantity : Option Decimal
  pub quote_amount : Option Decimal
  pub pnl_usdt : Option Decimal
  pub pnl_pct : Option Decimal
  pub fees_usdt : Option Decimal
  pub context_verdict : Option String
  pub context_score : Option ℤ
  pub exchange_order_id : Option String
  pub stop_order_id : Option String
  pub tp_order_id : Option String
  pub close_reason : Option CloseReason
  pub trading_mode : String
  pub opened_at : Option Instant
  pub closed_at : Option Instant
  pub profile_id : Option String
  pub goal_protected : Bool
  pub market : String
  pub venue : String
  pub take_profit_levels : List Decimal
  pub remaining_quantity : Option Decimal
  pub partials_taken : ℕ
  pub realized_pnl_usdt : Option Decimal

-- `effective_remaining`
unfoldable pub effective_remaining : TradeRecord → Decimal
effective_remaining t = option_or t.remaining_quantity (option_or t.quantity (whole 0))

unfoldable pub has_partial_exits : TradeRecord → Bool
has_partial_exits t = elim (t.take_profit_levels) [ [] ↦ false | _ ↦ true ]

pub record Trades : Type 0 where
  pub next_id : ℕ
  pub rows : List TradeRecord

-- INSERT ... RETURNING id: the row takes the next id; a missing remaining quantity is the quantity,
-- and a missing realized result is 0.
unfoldable pub create_trade : TradeRecord → Trades → ℕ × Trades
create_trade t db =
    let row = record t {
      id = db.next_id;
      remaining_quantity =
          if is_some t.remaining_quantity then t.remaining_quantity else t.quantity;
      realized_pnl_usdt = some (option_or t.realized_pnl_usdt (whole 0));
    } in
    (db.next_id, record { next_id = db.next_id + 1; rows = db.rows ++ row ∷ [] })

-- UPDATE trades SET ... WHERE id = ...
unfoldable pub update_rows : ℕ → (TradeRecord → TradeRecord) → List TradeRecord → List TradeRecord
update_rows k f [] = []
update_rows k f (t ∷ ts) = (if t.id == k then f t else t) ∷ update_rows k f ts

unfoldable pub update_where : ℕ → (TradeRecord → TradeRecord) → Trades → Trades
unfolding update_rows
update_where k f db = record db { rows = update_rows k f db.rows }

-- The columns that CLOSE_TRADE_SQL sets.
abbrev pub closed_row :
    Decimal → Decimal → Decimal → Option Decimal → CloseReason → Instant → TradeRecord → TradeRecord
closed_row price pnl pct fees reason at t = record t {
  status = closed;
  exit_price = some price;
  pnl_usdt = some pnl;
  pnl_pct = some pct;
  fees_usdt = if is_some fees then fees else t.fees_usdt;
  close_reason = some reason;
  closed_at = some at;
}

unfoldable pub close_trade :
    ℕ → Decimal → Decimal → Decimal → CloseReason → Instant → Option Decimal → Trades → Trades
unfolding update_where
close_trade k price pnl pct reason at fees =
    update_where k (closed_row price pnl pct fees reason at)

unfoldable pub update_protective_orders : ℕ → Option String → Option String → Trades → Trades
unfolding update_where
update_protective_orders k stop tp =
    update_where k (λ t. record t { stop_order_id = stop; tp_order_id = tp })

unfoldable pub record_partial_close : ℕ → Decimal → ℕ → Decimal → Trades → Trades
unfolding update_where
record_partial_close k remaining partials realized = update_where k (λ t. record t {
  remaining_quantity = some remaining;
  partials_taken = partials;
  realized_pnl_usdt = some realized;
})

unfoldable pub update_stop_loss : ℕ → Decimal → Option String → Trades → Trades
unfolding update_where
update_stop_loss k price order =
    update_where k (λ t. record t { stop_loss_price = some price; stop_order_id = order })

-- SELECT COUNT(*) with the condition as a test on a row.
unfoldable pub count_rows : (TradeRecord → Bool) → List TradeRecord → ℕ
count_rows p [] = 0
count_rows p (t ∷ ts) = if p t then suc (count_rows p ts) else count_rows p ts

abbrev pub is_open_of : String → TradeRecord → Bool
is_open_of profile t = is_open t.status && str_eq (option_or t.profile_id "divap") profile

-- `count_open_trades`: of all profiles when no profile, or an empty one, is given.
unfoldable pub count_open_trades : Option String → Trades → ℕ
unfolding count_rows
count_open_trades none db = count_rows (λ t. is_open t.status) db.rows
count_open_trades (some p) db =
    if str_eq p ""
    then count_rows (λ t. is_open t.status) db.rows
    else count_rows (is_open_of p) db.rows

unfoldable pub has_open_trade : String → String → String → Trades → Bool
unfolding count_rows
has_open_trade symbol timeframe profile db = ltb 0 (
    count_rows (λ t. str_eq t.symbol symbol && str_eq t.timeframe timeframe && is_open_of profile t)
      db.rows)

unfoldable pub find_row : ℕ → List TradeRecord → Option TradeRecord
find_row k [] = none
find_row k (t ∷ ts) = if t.id == k then some t else find_row k ts

unfoldable pub get_trade : ℕ → Trades → Option TradeRecord
unfolding find_row
get_trade k db = find_row k db.rows

unfoldable pub select_open : List TradeRecord → List TradeRecord
select_open [] = []
select_open (t ∷ ts) = if is_open t.status then t ∷ select_open ts else select_open ts

-- `list_open_trades`; rows are inserted as they open, so the order of insertion is that of opened_at.
unfoldable pub list_open_trades : Trades → List TradeRecord
unfolding select_open
list_open_trades db = select_open db.rows
