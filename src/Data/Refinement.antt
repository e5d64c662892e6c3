-- ===== src/Data/Refinement.antt =====
-- The table of trades keeps the contract of the ledger.
use divap_trader.Base.{
  ℕ, ◌+◌, ◌<◌, ◌≡◌, refl, ap, ◌∙◌, some, List, [], ◌∷◌, ◌++◌, ◌==◌, arith, if◌then◌else◌, All,
  All-append,
}
use divap_trader.Data.Trades.{
  TradeRecord, Trades, create_trade, update_where, update_rows, find_row, get_trade,
}
use divap_trader.Data.Ledger.{
  Statement, create, close, protect, take_partial, move_stop, run, run_all, Ledger, insert, adjust,
  new_row, perform, perform_all, map_row, empty_trades, empty_ledger,
}

-- The table and the ledger give the same row for every id, new rows have the same id, and no row of the
-- table has an id that is still to be given.
pub record IsRefined (db : Trades) (m : Ledger) : Type 0 where
  pub same_next : db.next_id ≡ m.next_key
  pub same_rows : (k : ℕ) → get_trade k db ≡ m.row_at k
  pub ids_below : All (λ t. t.id < db.next_id) db.rows

find_row-append :
    (k : ℕ) (t : TradeRecord) (xs : List TradeRecord)
    → All (λ x. x.id < t.id) xs
    → find_row k (xs ++ t ∷ []) ≡ (if t.id == k then some t else find_row k xs)
unfolding find_row
find_row-append k t [] v = refl
find_row-append k t (x ∷ xs) (v, vs) = ground (arith, find_row-append k t xs vs)

below_more : (n : ℕ) (xs : List TradeRecord) → All (λ x. x.id < n) xs → All (λ x. x.id < n + 1) xs
below_more n [] v = tt
below_more n (x ∷ xs) (v, vs) = (omega (arith, v), below_more n xs vs)

module _ (k : ℕ) (f : TradeRecord → TradeRecord) (keeps : (t : TradeRecord) → (f t).id ≡ t.id) where
  find_row-update_at :
      (j : ℕ) (xs : List TradeRecord)
      → find_row j (update_rows k f xs)
        ≡ (if k == j then map_row f (find_row j xs) else find_row j xs)
  unfolding find_row update_rows
  find_row-update_at j [] = ground arith
  find_row-update_at j (x ∷ xs) = ground (arith, keeps x, find_row-update_at j xs)

  update_rows-below :
      (n : ℕ) (xs : List TradeRecord)
      → All (λ x. x.id < n) xs
      → All (λ x. x.id < n) (update_rows k f xs)
  unfolding update_rows
  update_rows-below n [] v = tt
  update_rows-below n (x ∷ xs) (v, vs) = (ground (arith, keeps x), update_rows-below n xs vs)

  update_where-IsRefined :
      (db : Trades) (m : Ledger) → IsRefined db m → IsRefined (update_where k f db) (adjust k f m)
  unfolding update_where adjust get_trade
  update_where-IsRefined db m r = record {
    same_next = r.same_next;
    same_rows = λ j.
        find_row-update_at j db.rows ∙ ap (λ x. if k == j then map_row f x else x) (r.same_rows j);
    ids_below = update_rows-below db.next_id db.rows r.ids_below;
  }

create_trade-IsRefined :
    (t : TradeRecord) (db : Trades) (m : Ledger)
    → IsRefined db m
    → IsRefined (create_trade t db).1 (insert (new_row m.next_key t) m)
unfolding create_trade insert get_trade
create_trade-IsRefined t db m r = record {
  same_next = ap (λ n. n + 1) r.same_next;
  same_rows = λ j.
      find_row-append j _ db.rows r.ids_below
      ∙ ap (λ n. if n == j then some (new_row n t) else find_row j db.rows) r.same_next
      ∙ ap (λ x. if m.next_key == j then some (new_row m.next_key t) else x) (r.same_rows j);
  ids_below = All-append _ db.rows _ (below_more db.next_id db.rows r.ids_below) (omega arith, tt);
}

pub run-IsRefined :
    (s : Statement) (db : Trades) (m : Ledger) → IsRefined db m → IsRefined (run s db) (perform s m)
unfolding run perform
run-IsRefined (create t) db m r = create_trade-IsRefined t db m r
run-IsRefined (close k price pnl pct reason at fees) db m r =
    update_where-IsRefined k _ (λ t. refl) db m r
run-IsRefined (protect k stop tp) db m r = update_where-IsRefined k _ (λ t. refl) db m r
run-IsRefined (take_partial k remaining n realized) db m r =
    update_where-IsRefined k _ (λ t. refl) db m r
run-IsRefined (move_stop k price order) db m r = update_where-IsRefined k _ (λ t. refl) db m r

run_all-IsRefined :
    (ss : List Statement) (db : Trades) (m : Ledger)
    → IsRefined db m
    → IsRefined (run_all ss db) (perform_all ss m)
unfolding run_all perform_all
run_all-IsRefined [] db m r = r
run_all-IsRefined (s ∷ ss) db m r = run_all-IsRefined ss _ _ (run-IsRefined s db m r)

-- After any statements from the empty table, the table gives for every id the row of a map in which each
-- creation puts its row under the next key and each other statement changes the row of its key; the next id
-- is the map's next key, and no row has an id from there on.
pub run_all-IsRefined_empty :
    (n : ℕ) (ss : List Statement)
    → IsRefined (run_all ss (empty_trades n)) (perform_all ss (empty_ledger n))
unfolding get_trade find_row
run_all-IsRefined_empty n ss =
    run_all-IsRefined ss _ _ (record { same_next = refl; same_rows = λ k. refl; ids_below = tt })
