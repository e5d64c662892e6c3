-- ===== src/Data/Ledger.antt =====
-- The table of trades as a map from ids to rows, and the statements that the trading code runs on it.
use divap_trader.Base.{
  ℕ, ◌+◌, Option, none, some, List, [], ◌∷◌, ◌==◌, if◌then◌else◌, is_some, option_or, String,
}
use divap_trader.Decimals.{Decimal, whole}
use divap_trader.Data.Trades.{
  TradeRecord, Trades, CloseReason, Instant, create_trade, closed_row, close_trade,
  update_protective_orders, record_partial_close, update_stop_loss,
}

-- The statements with their parameters.
pub data Statement : Type 0 where
  create : TradeRecord → Statement
  close : ℕ → Decimal → Decimal → Decimal → CloseReason → Instant → Option Decimal → Statement
  protect : ℕ → Option String → Option String → Statement
  take_partial : ℕ → Decimal → ℕ → Decimal → Statement
  move_stop : ℕ → Decimal → Option String → Statement

unfoldable pub run : Statement → Trades → Trades
unfolding create_trade close_trade update_protective_orders record_partial_close update_stop_loss
run (create t) db = (create_trade t db).1
run (close k price pnl pct reason at fees) db = close_trade k price pnl pct reason at fees db
run (protect k stop tp) db = update_protective_orders k stop tp db
run (take_partial k remaining n realized) db = record_partial_close k remaining n realized db
run (move_stop k price order) db = update_stop_loss k price order db

unfoldable pub run_all : List Statement → Trades → Trades
unfolding run
run_all [] db = db
run_all (s ∷ ss) db = run_all ss (run s db)

-- The contract: a map that gives a new row the next key, and changes the row of a key.
pub record Ledger : Type 0 where
  pub next_key : ℕ
  pub row_at : ℕ → Option TradeRecord

abbrev pub map_row : (TradeRecord → TradeRecord) → Option TradeRecord → Option TradeRecord
map_row f none = none
map_row f (some t) = some (f t)

unfoldable pub insert : TradeRecord → Ledger → Ledger
insert t m = record {
  next_key = m.next_key + 1;
  row_at = λ k. if m.next_key == k then some t else m.row_at k;
}

unfoldable pub adjust : ℕ → (TradeRecord → TradeRecord) → Ledger → Ledger
adjust k f m = record m { row_at = λ j. if k == j then map_row f (m.row_at j) else m.row_at j }

-- What a new row says of itself, whatever its defaults.
abbrev pub new_row : ℕ → TradeRecord → TradeRecord
new_row key t = record t {
  id = key;
  remaining_quantity = if is_some t.remaining_quantity then t.remaining_quantity else t.quantity;
  realized_pnl_usdt = some (option_or t.realized_pnl_usdt (whole 0));
}

unfoldable pub perform : Statement → Ledger → Ledger
unfolding insert adjust
perform (create t) m = insert (new_row m.next_key t) m
perform (close k price pnl pct reason at fees) m =
    adjust k (closed_row price pnl pct fees reason at) m
perform (protect k stop tp) m =
    adjust k (λ t. record t { stop_order_id = stop; tp_order_id = tp }) m
perform (take_partial k remaining n realized) m =
    adjust k
      (λ t. record t {
        remaining_quantity = some remaining;
        partials_taken = n;
        realized_pnl_usdt = some realized;
      })
      m
perform (move_stop k price order) m =
    adjust k (λ t. record t { stop_loss_price = some price; stop_order_id = order }) m

unfoldable pub perform_all : List Statement → Ledger → Ledger
unfolding perform
perform_all [] m = m
perform_all (s ∷ ss) m = perform_all ss (perform s m)

-- The table without rows, from the next id on, and its ledger.
abbrev pub empty_trades : ℕ → Trades
empty_trades n = record { next_id = n; rows = [] }

abbrev pub empty_ledger : ℕ → Ledger
empty_ledger n = record { next_key = n; row_at = λ k. none }
