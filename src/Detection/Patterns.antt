-- ===== src/Detection/Patterns.antt =====
-- src/indicators/patterns.py and volume.py.
use divap_trader.Base.{
  ℕ, ◌+◌, ◌-◌, Bool, false, ◌&&◌, Option, none, some, List, [], ◌∷◌, length, ltb, map,
  if◌then◌else◌, get_last,
}
use divap_trader.Decimals.{
  Decimal, whole, fixed, ◌⊖◌, ◌⊗◌, abs, quotient, sum, lt, le, is_zero, minimum, maximum,
}
use divap_trader.Market.{Candle}
use divap_trader.Profiles.ExitPolicy.Fibonacci.{drop}

pub data Pattern : Type 0 where
  bullish_engulfing bearish_engulfing hammer shooting_star harami : Pattern

unfoldable pub body : Candle → Decimal
body c = abs (c.close ⊖ c.open_price)

unfoldable pub range : Candle → Decimal
range c = c.high ⊖ c.low

unfoldable pub upper_wick : Candle → Decimal
upper_wick c = c.high ⊖ maximum c.open_price c.close

unfoldable pub lower_wick : Candle → Decimal
lower_wick c = minimum c.open_price c.close ⊖ c.low

-- A long wick on one side of a small body, and a short one on the other.
unfoldable pub has_long_wick : Decimal → Decimal → Candle → Bool
unfolding body range
has_long_wick long short c =
    if is_zero (range c)
    then false
    else le (body c ⊗ whole 2) long
      && le short (body c ⊗ fixed 5 1)
      && le (quotient (body c) (range c)) (fixed 35 2)

unfoldable pub is_hammer : Candle → Bool
unfolding has_long_wick lower_wick upper_wick
is_hammer c = has_long_wick (lower_wick c) (upper_wick c) c

unfoldable pub is_shooting_star : Candle → Bool
unfolding has_long_wick lower_wick upper_wick
is_shooting_star c = has_long_wick (upper_wick c) (lower_wick c) c

unfoldable pub is_bullish_engulfing : Candle → Candle → Bool
is_bullish_engulfing prev curr =
    lt prev.close prev.open_price
    && lt curr.open_price curr.close
    && le curr.open_price prev.close
    && le prev.open_price curr.close

unfoldable pub is_bearish_engulfing : Candle → Candle → Bool
is_bearish_engulfing prev curr =
    lt prev.open_price prev.close
    && lt curr.close curr.open_price
    && le prev.close curr.open_price
    && le curr.close prev.open_price

unfoldable pub is_harami : Candle → Candle → Bool
unfolding body
is_harami prev curr =
    le (maximum curr.open_price curr.close) (maximum prev.open_price prev.close)
    && le (minimum prev.open_price prev.close) (minimum curr.open_price curr.close)
    && lt (body curr) (body prev)

unfoldable pub pattern_of : Candle → Candle → Option Pattern
unfolding is_bullish_engulfing is_bearish_engulfing is_hammer is_shooting_star is_harami
pattern_of prev curr =
    if is_bullish_engulfing prev curr
    then some bullish_engulfing
    else if is_bearish_engulfing prev curr
    then some bearish_engulfing
    else if is_hammer curr
    then some hammer
    else if is_shooting_star curr
    then some shooting_star
    else if is_harami prev curr
    then some harami
    else none

-- The last two candles
unfoldable pub pattern_at : List Candle → Option Pattern
unfolding pattern_of
pattern_at [] = none
pattern_at (prev ∷ []) = none
pattern_at (prev ∷ curr ∷ []) = pattern_of prev curr
pattern_at (a ∷ b ∷ c ∷ rest) = pattern_at (b ∷ c ∷ rest)

unfoldable pub detect_reversal_pattern : List Candle → Option Pattern
unfolding pattern_at
detect_reversal_pattern candles = pattern_at candles

-- candles[:-1]
unfoldable pub but_last : List Candle → List Candle
but_last [] = []
but_last (c ∷ []) = []
but_last (c ∷ d ∷ rest) = c ∷ but_last (d ∷ rest)

abbrev pub volume_ma_period : ℕ
volume_ma_period = 20

unfoldable pub compute_volume_ma : List Candle → Option Decimal
unfolding drop
compute_volume_ma candles =
    if ltb (length candles) volume_ma_period
    then none
    else some (
        quotient (sum (map (λ c. c.volume) (drop (length candles - volume_ma_period) candles)))
          (whole volume_ma_period))

abbrev pub exceeds : Decimal → Option Decimal → Bool
exceeds volume none = false
exceeds volume (some average) = if is_zero average then false else lt average volume

abbrev pub volume_over : List Candle → Option Decimal → Bool
volume_over [] average = false
volume_over (c ∷ cs) average = exceeds (get_last c cs).volume average

unfoldable pub is_volume_above_average : List Candle → Bool
unfolding compute_volume_ma but_last
is_volume_above_average candles =
    if ltb (length candles) (volume_ma_period + 1)
    then false
    else volume_over candles (compute_volume_ma (but_last candles))
