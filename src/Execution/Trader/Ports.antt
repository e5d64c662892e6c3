-- ===== src/Execution/Trader/Ports.antt =====
-- What the executor calls, its settings and its result.
use divap_trader.Base.{String, Bool, Option, none, List, ℕ, false}
use divap_trader.Base.Int.{ℤ}
use divap_trader.Decimals.{Decimal}
use divap_trader.Data.Trades.{Instant, Direction}
use divap_trader.Market.{Candle, DivapSignal}
use divap_trader.Profiles.Models.{TradingProfile}
use divap_trader.Execution.Gate.Defs.{Settings, Denial}
use divap_trader.Execution.Trader.Steps.{Answer}

-- A market order with the average price, the filled quantity and the cost that parse_filled reads.
pub record Order : Type 0 where
  pub order_id : String
  pub price : Decimal
  pub filled : Decimal
  pub cost : Decimal

-- The broker and the source of market data (interfaces of src/execution and src/data/sources), the profiles
-- on disk and the clock. The id of a placed order is none where the broker gives no order.
pub record Broker (W : Type 0) : Type 0 where
  pub get_usdt_balance : W → Answer Decimal × W
  pub get_base_balance : String → W → Answer Decimal × W
  pub min_notional : String → W → Answer Decimal × W
  pub market_buy_quote : String → Decimal → W → Answer Order × W
  pub market_sell : String → Decimal → W → Answer Order × W
  pub place_stop_loss_limit : String → Decimal → Decimal → Decimal → W → Answer (Option String) × W
  pub place_take_profit_limit : String → Decimal → Decimal → W → Answer (Option String) × W
  -- `fetch_ohlcv(symbol, timeframe, limit=100)`
  pub fetch_ohlcv : String → String → W → Answer (List Candle) × W
  pub load_profile : String → Option TradingProfile
  pub now : W → Instant × W
  pub current_period_month : W → String × W

pub record TraderSettings : Type 0 where
  pub gate : Settings
  pub trading_max_open_trades : ℤ
  pub trading_dry_run : Bool

-- The venue of the executor, with its market.
pub record Place : Type 0 where
  pub market : String
  pub venue : String

-- `Venue.BINANCE` trades crypto, any other venue forex.
pub data Venue : Type 0 where
  binance fxcm oanda iq_option : Venue

unfoldable pub place_of : Venue → Place
place_of Venue.binance = record { market = "crypto"; venue = "binance" }
place_of Venue.fxcm = record { market = "forex"; venue = "fxcm" }
place_of Venue.oanda = record { market = "forex"; venue = "oanda" }
place_of Venue.iq_option = record { market = "forex"; venue = "iqoption" }

-- The texts of the field `reason`, those of the gate as the gate's model has them.
pub data Reason : Type 0 where
  ok dry_run max_open_trades_global max_open_trades duplicate_open_trade no_targets : Reason
  insufficient_balance insufficient_base_balance zero_fill : Reason
  refused : Denial → Reason
  exchange_error : String → Reason

pub record TradeExecutionResult : Type 0 where
  pub trade_id : Option ℕ
  pub executed : Bool
  pub reason : Reason
  pub symbol : String
  pub direction : Direction
  pub quote_amount : Option Decimal
  pub entry_price : Option Decimal
  pub quantity : Option Decimal

unfoldable pub refusal : DivapSignal → Reason → TradeExecutionResult
refusal signal reason = record {
  trade_id = none;
  executed = false;
  reason = reason;
  symbol = signal.symbol;
  direction = signal.direction;
  quote_amount = none;
  entry_price = none;
  quantity = none;
}
