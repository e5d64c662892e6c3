-- ===== src/Tasso/Models.antt =====
-- src/tasso/models.py, the signal that is built for the trade executor, and what the Tasso code calls.
use divap_trader.Base.{
  ℕ, String, Bool, false, ◌&&◌, Option, none, some, List, [], ◌∷◌, if◌then◌else◌, str_eq, not,
  option_or,
}
use divap_trader.Decimals.{Decimal, whole, fixed, ◌⊕◌, ◌⊖◌, ◌⊗◌}
use divap_trader.Data.Trades.{Direction, buy, is_buy, TradeRecord, Trades, is_open}
use divap_trader.Market.{DivapSignal, high}
use divap_trader.Execution.Monitor.Results.{present_or}
use divap_trader.Execution.Trader.Steps.{Answer}
use divap_trader.Execution.Trader.Ports.{Broker}

pub data SignalKind : Type 0 where
  new_signal revision stop_hit : SignalKind

-- The fields that the trading code reads; the levels are [] where the source has None.
pub record TassoSignal : Type 0 where
  pub profile_id : String
  pub symbol : Option String
  pub direction : Option Direction
  pub timeframe : String
  pub entry_price : Option Decimal
  pub stop_price : Option Decimal
  pub take_profit_price : Option Decimal
  pub signal_kind : SignalKind
  pub take_profit_levels : List Decimal
  pub targets_hit : ℕ

-- The broker of the trade executor with the calls that it does not make. The last price is none where the
-- ticker raises; an exception of cancel_order is caught, so only its effect is seen.
pub record TassoPorts (W : Type 0) : Type 0 where
  pub broker : Broker W
  pub fetch_last : String → W → Option Decimal × W
  pub fetch_ticker_price : String → W → Answer Decimal × W
  -- hasattr(broker, "cancel_order"), and the call
  pub can_cancel : Bool
  pub cancel_order : String → String → W → W

abbrev pub default_stop_pct : Decimal
default_stop_pct = fixed 2 2

abbrev pub default_tp_pct : Decimal
default_tp_pct = fixed 3 2

-- A direction that is missing is no purchase.
abbrev pub is_purchase : Option Direction → Bool
is_purchase none = false
is_purchase (some d) = is_buy d

unfoldable pub default_stop : Option Direction → Decimal → Decimal
default_stop d entry =
    if is_purchase d
    then entry ⊗ (whole 1 ⊖ default_stop_pct)
    else entry ⊗ (whole 1 ⊕ default_stop_pct)

unfoldable pub default_target : Option Direction → Decimal → Decimal
default_target d entry =
    if is_purchase d then entry ⊗ (whole 1 ⊕ default_tp_pct) else entry ⊗ (whole 1 ⊖ default_tp_pct)

abbrev pub levels_or : List Decimal → Decimal → List Decimal
levels_or [] target = target ∷ []
levels_or (l ∷ ls) target = l ∷ ls

-- `signal.symbol or "BTCUSDT"`
abbrev pub symbol_or_default : Option String → String
symbol_or_default none = "BTCUSDT"
symbol_or_default (some s) = if str_eq s "" then "BTCUSDT" else s

unfoldable pub build_divap_signal : TassoSignal → Decimal → DivapSignal
unfolding default_stop default_target
build_divap_signal signal current =
    let entry = present_or signal.entry_price current in
    record {
      symbol = symbol_or_default signal.symbol;
      timeframe = signal.timeframe;
      direction = option_or signal.direction buy;
      confidence = high;
      entry_price = entry;
      stop_price = option_or signal.stop_price (default_stop signal.direction entry);
      targets =
          levels_or signal.take_profit_levels
            (option_or signal.take_profit_price (default_target signal.direction entry));
    }

-- `list_binance_open_trades`, with BINANCE_SCOPE_SQL
unfoldable pub select_binance : List TradeRecord → List TradeRecord
select_binance [] = []
select_binance (t ∷ ts) =
    let rest = select_binance ts in
    if is_open t.status && not (str_eq t.venue "iqoption") then t ∷ rest else rest

unfoldable pub list_binance_open_trades : Trades → List TradeRecord
unfolding select_binance
list_binance_open_trades db = select_binance db.rows

unfoldable pub first_trade : (TradeRecord → Bool) → List TradeRecord → Option TradeRecord
first_trade p [] = none
first_trade p (t ∷ ts) = if p t then some t else first_trade p ts
