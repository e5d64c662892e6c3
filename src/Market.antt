-- ===== src/Market.antt =====
-- Candles, DIVAP signals and the market context: the data of src/data/models/candle.py,
-- src/detection/divap_scanner.py and src/context/models.py that the trading code reads.
use divap_trader.Base.{
  ℕ, ◌+◌, String, Bool, true, false, Option, none, some, List, [], ◌∷◌, leb, ltb, if◌then◌else◌,
  str_eq, not,
}
use divap_trader.Base.Int.{ℤ}
use divap_trader.Decimals.{Decimal}
use divap_trader.Data.Trades.{Instant, Direction}

pub record Candle : Type 0 where
  pub timestamp : Instant
  pub open_price : Decimal
  pub high : Decimal
  pub low : Decimal
  pub close : Decimal
  pub volume : Decimal

pub data Confidence : Type 0 where
  medium high : Confidence

abbrev pub is_high : Confidence → Bool
is_high medium = false
is_high high = true

pub record DivapCriteria : Type 0 where
  pub divergence : Bool
  pub volume : Bool
  pub fibonacci : Bool
  pub pattern : Bool

abbrev as_number : Bool → ℕ
as_number true = 1
as_number false = 0

-- `DIVAPCriteria.count`
unfoldable pub count_confluences : DivapCriteria → ℕ
count_confluences c =
    as_number c.divergence + as_number c.volume + as_number c.fibonacci + as_number c.pattern

abbrev pub min_confluences_for_alert : ℕ
min_confluences_for_alert = 3

abbrev pub min_confluences_high_confidence : ℕ
min_confluences_high_confidence = 4

unfoldable pub resolve_confidence : DivapCriteria → Option Confidence
unfolding count_confluences
resolve_confidence c =
    if not c.divergence
    then none
    else if ltb (count_confluences c) min_confluences_for_alert
    then none
    else if leb min_confluences_high_confidence (count_confluences c)
    then some high
    else some medium

-- The fields of a signal that the execution reads.
pub record DivapSignal : Type 0 where
  pub symbol : String
  pub timeframe : String
  pub direction : Direction
  pub confidence : Confidence
  pub entry_price : Decimal
  pub stop_price : Decimal
  pub targets : List Decimal

pub data TrendBias : Type 0 where
  bullish bearish sideways unknown : TrendBias

abbrev pub is_bullish : TrendBias → Bool
is_bullish bullish = true
is_bullish _ = false

abbrev pub is_bearish : TrendBias → Bool
is_bearish bearish = true
is_bearish _ = false

pub data ContextVerdict : Type 0 where
  confirm caution reject unknown : ContextVerdict

abbrev pub is_confirm : ContextVerdict → Bool
is_confirm confirm = true
is_confirm _ = false

abbrev pub is_reject : ContextVerdict → Bool
is_reject reject = true
is_reject _ = false

pub record FearGreedReading : Type 0 where
  pub value : ℤ
  pub classification : String

-- `htf_trends.get(label, "unknown")`
unfoldable pub trend_of : String → List (String × TrendBias) → TrendBias
trend_of label [] = TrendBias.unknown
trend_of label ((k, t) ∷ ts) = if str_eq k label then t else trend_of label ts

pub record MarketContext : Type 0 where
  pub fear_greed : Option FearGreedReading
  pub htf_trends : List (String × TrendBias)
  pub context_score : ℤ
  pub context_verdict : ContextVerdict
