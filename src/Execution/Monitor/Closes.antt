-- ===== src/Execution/Monitor/Closes.antt =====
-- Steps that report true only where they have closed a trade.
use divap_trader.Base.{ℕ, Bool, true, false, Option, none, some, List, [], ◌∷◌, ◌≡◌, refl, arith}
use divap_trader.Data.Trades.{TradeRecord, Trades, closed, update_rows, find_row, get_trade}
use divap_trader.Execution.Monitor.Steps.{MonitorState, Step, done, next, and_then, choose}

abbrev pub IsClosedIn : ℕ → Trades → Type 0
IsClosedIn k db = (t : TradeRecord) → get_trade k db ≡ some t → t.status ≡ closed

-- Where the step says true, trade k stands closed in the table.
pub record Closes {W : Type 0} (k : ℕ) (m : Step W Bool) : Type 0 where
  pub closes : (s : MonitorState W) → (m s).0 ≡ some true → IsClosedIn k (m s).1.trades

module _ {W : Type 0} {k : ℕ} where
  pub false-Closes : Closes k (done {W = W} false)
  unfolding done
  false-Closes = record { closes = λ s h t e. ground arith }

  next-Closes :
      {A : Type 0} (r : Option A × MonitorState W) (f : A → Step W Bool)
      → ((a : A) → Closes k (f a))
      → (next r f).0 ≡ some true
      → IsClosedIn k (next r f).1.trades
  unfolding next
  next-Closes (none, s) f p h t e = ground arith
  next-Closes (some a, s) f p h t e = (p a).closes s h t e

  pub and_then-Closes :
      {A : Type 0} (m : Step W A) {f : A → Step W Bool}
      → ((a : A) → Closes k (f a))
      → Closes k (and_then m f)
  unfolding and_then
  and_then-Closes m {f} p = record { closes = λ s h. next-Closes (m s) f p h }

  pub choose-Closes :
      (b : Bool) {m n : Step W Bool} → Closes k m → Closes k n → Closes k (choose b m n)
  unfolding choose
  choose-Closes true p q = p
  choose-Closes false p q = q

-- `return True` where a step before has already closed the trade.
module _ {W : Type 0} {k : ℕ} (rest : Step W Bool) (q : Closes k rest) where
  else_next :
      (r : Option Bool × MonitorState W)
      → (r.0 ≡ some true → IsClosedIn k r.1.trades)
      → (next r (λ b. choose b (done true) rest)).0 ≡ some true
      → IsClosedIn k (next r (λ b. choose b (done true) rest)).1.trades
  unfolding next choose done
  else_next (none, s) p h t e = ground arith
  else_next (some true, s) p h t e = p refl t e
  else_next (some false, s) p h t e = q.closes s h t e

  pub or_else-Closes :
      {m : Step W Bool} → Closes k m → Closes k (and_then m (λ b. choose b (done true) rest))
  unfolding and_then
  or_else-Closes {m} p = record { closes = λ s h. else_next (m s) (p.closes s) h }

pub find_row-closed :
    (k : ℕ) (f : TradeRecord → TradeRecord) (rows : List TradeRecord)
    → ((t : TradeRecord) → ((f t).id ≡ t.id) × ((f t).status ≡ closed))
    → (t : TradeRecord) → find_row k (update_rows k f rows) ≡ some t
    → t.status ≡ closed
unfolding find_row update_rows
find_row-closed k f [] p t h = ground arith
find_row-closed k f (u ∷ rows) p t h = ground (arith, p u, find_row-closed k f rows p t)
