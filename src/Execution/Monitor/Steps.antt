-- ===== src/Execution/Monitor/Steps.antt =====
-- The steps of the monitor: a world of the outside and the table of trades go through each, and a step that
-- raises ends the watch over its trade. `Exchange` holds what the monitor calls.
use divap_trader.Base.{ℕ, String, Bool, true, false, Option, none, some, List, ◌≡◌, ◌≢◌, refl, ◌∙◌}
use divap_trader.Decimals.{Decimal}
use divap_trader.Data.Trades.{Trades, TradeRecord, Instant, CloseReason, get_trade}
use divap_trader.Market.{Candle}
use divap_trader.Profiles.Models.{TradingProfile}

pub record MonitorState (W : Type 0) : Type 0 where
  pub world : W
  pub trades : Trades

-- None stands for an exception, whose effects so far stay.
abbrev pub Step : Type 0 → Type 0 → Type 0
Step W A = MonitorState W → Option A × MonitorState W

-- Every call may raise. Orders are given by the average price and the filled quantity that parse_filled of
-- the broker reads from them, the state of an order with its status in lower case.
pub record Exchange (W : Type 0) : Type 0 where
  pub fetch_order : String → String → W → Option (String × Decimal) × W
  pub market_sell : String → Decimal → W → Option (Decimal × Decimal) × W
  pub market_buy_quote : String → Decimal → W → Option (Decimal × Decimal) × W
  pub fetch_ticker_price : String → W → Option Decimal × W
  pub place_stop_loss_limit : String → Decimal → Decimal → Decimal → W → Option (Option String) × W
  -- hasattr(broker, "cancel_order"), and the call
  pub can_cancel : Bool
  pub cancel_order : String → String → W → Option (Unit {0}) × W
  -- none inside where fetch_ohlcv raises an ExchangeError, which the monitor catches
  pub fetch_ohlcv : String → String → W → Option (Option (List Candle)) × W
  pub load_profile : String → Option TradingProfile
  pub now : W → Instant
  -- the notifier, if it is configured
  pub notify_closed :
      TradeRecord → Decimal → Decimal → Decimal → CloseReason → W → Option (Unit {0}) × W
  pub notify_partial : TradeRecord → ℕ → ℕ → Decimal → Decimal → Decimal → W → Option (Unit {0}) × W

module _ {W : Type 0} where
  unfoldable pub done : {A : Type 0} → A → Step W A
  done a s = (some a, s)

  unfoldable pub next :
      {A B : Type 0} → Option A × MonitorState W → (A → Step W B) → Option B × MonitorState W
  next (none, s) f = (none, s)
  next (some a, s) f = f a s

  unfoldable pub and_then : {A B : Type 0} → Step W A → (A → Step W B) → Step W B
  unfolding next
  and_then m f s = next (m s) f

  unfoldable pub call : {A : Type 0} → (W → Option A × W) → Step W A
  call f s = let (a, w) = f s.world in (a, record s { world = w })

  unfoldable pub update : (W → Trades → Trades) → Step W (Unit {0})
  update f s = (some tt, record s { trades = f s.world s.trades })

  unfoldable pub choose : {A : Type 0} → Bool → Step W A → Step W A → Step W A
  choose true m n = m
  choose false m n = n

-- A step on trade k leaves every other trade as it was, also where it raises.
pub record Keeps {W A : Type 0} (k : ℕ) (m : Step W A) : Type 0 where
  pub keeps :
      (j : ℕ) (s : MonitorState W) → j ≢ k → get_trade j (m s).1.trades ≡ get_trade j s.trades

module _ {W : Type 0} where
  pub done-Keeps : {A : Type 0} (k : ℕ) (a : A) → Keeps k (done {W = W} a)
  unfolding done
  done-Keeps k a = record { keeps = λ j s h. refl }

  next-Keeps :
      {A B : Type 0} (k j : ℕ) (r : Option A × MonitorState W) (f : A → Step W B)
      → ((a : A) → Keeps k (f a))
      → j ≢ k
      → get_trade j (next r f).1.trades ≡ get_trade j r.1.trades
  unfolding next
  next-Keeps k j (none, s) f p h = refl
  next-Keeps k j (some a, s) f p h = (p a).keeps j s h

  pub and_then-Keeps :
      {A B : Type 0} {k : ℕ} {m : Step W A} {f : A → Step W B}
      → Keeps k m
      → ((a : A) → Keeps k (f a))
      → Keeps k (and_then m f)
  unfolding and_then
  and_then-Keeps {k} {m} {f} p q = record {
    keeps = λ j s h. next-Keeps k j (m s) f q h ∙ p.keeps j s h;
  }

  pub call-Keeps : {A : Type 0} (k : ℕ) (f : W → Option A × W) → Keeps k (call f)
  unfolding call
  call-Keeps k f = record { keeps = λ j s h. refl }

  pub choose-Keeps :
      {A : Type 0} {k : ℕ} (b : Bool) {m n : Step W A}
      → Keeps k m
      → Keeps k n
      → Keeps k (choose b m n)
  unfolding choose
  choose-Keeps true p q = p
  choose-Keeps false p q = q
