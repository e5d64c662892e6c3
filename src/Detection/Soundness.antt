-- ===== src/Detection/Soundness.antt =====
-- What a signal of the scanner rests on.
use divap_trader.Base.{◌≡◌, Bool, true, false, ◌&&◌, not, Option, none, some, List, is_some, leb}
use divap_trader.Market.{Candle, is_high, count_confluences}
use divap_trader.Detection.Patterns.{detect_reversal_pattern}
use divap_trader.Detection.Levels.{price_at_extension_target}
use divap_trader.Detection.Evidence.{Pivots, diverging, IsLoud}
use divap_trader.Detection.Scanner.{Detected, pattern_aligns_with_direction}
use divap_trader.Detection.Targets.{Ahead, NearestFirst}

-- The signal, and the candles and the RSI that it rests on.
pub record IsSound {R : Type 0} (below : R → R → Bool) (candles : List Candle)
    (rsi : List (Option R)) (d : Detected) : Type 0 where
  pub divergent : d.criteria.divergence ≡ true
  pub confluent : leb 3 (count_confluences d.criteria) ≡ true
  pub graded : is_high d.signal.confidence ≡ leb 4 (count_confluences d.criteria)
  pub sided : Pivots candles rsi (diverging below d.signal.direction)
  pub loud : d.criteria.volume ≡ true → IsLoud candles
  pub near : d.fibo_level ≡ price_at_extension_target candles
  pub near_counts : d.criteria.fibonacci ≡ is_some d.fibo_level
  pub turning : d.pattern ≡ detect_reversal_pattern candles
  pub turning_counts : d.criteria.pattern ≡ is_some d.pattern
  pub aligned :
      (is_some d.pattern && not (pattern_aligns_with_direction d.pattern d.signal.direction))
      ≡ false
  pub ahead : Ahead d.signal.direction d.signal.entry_price d.signal.targets
  pub nearest_first : NearestFirst d.signal.direction d.signal.targets

module _ {R : Type 0} (below : R → R → Bool) (candles : List Candle) (rsi : List (Option R)) where
  -- A result, if there is one, is sound.
  abbrev pub Sound : Option Detected → Type 0
  Sound none = Unit
  Sound (some d) = IsSound below candles rsi d
