-- ===== src/Detection/Scanner.antt =====
-- src/detection/divap_scanner.py.
use divap_trader.Base.{
  String, Bool, true, false, ◌&&◌, ◌||◌, not, Option, none, some, List, [], ◌∷◌, length, ltb, map,
  if◌then◌else◌, get_last, is_some, str_eq,
}
use divap_trader.Decimals.{Decimal, whole, fixed, ◌⊕◌, ◌⊖◌, ◌⊗◌, lt}
use divap_trader.Data.Trades.{Direction, buy, sell, is_buy}
use divap_trader.Market.{Candle, Confidence, DivapCriteria, resolve_confidence, DivapSignal}
use divap_trader.Profiles.ExitPolicy.Fibonacci.{
  window, lowest, highest, find_swing_points, calculate_extension_levels,
}
use divap_trader.Detection.Patterns.{
  Pattern, bullish_engulfing, bearish_engulfing, hammer, shooting_star, harami,
  detect_reversal_pattern, is_volume_above_average,
}
use divap_trader.Detection.Levels.{price_at_extension_target}
use divap_trader.Detection.Divergence.{
  DivergenceType, DivergenceResult, bullish, bearish, detect_divergence,
}

abbrev pub direction_of : DivergenceType → Direction
direction_of bullish = buy
direction_of bearish = sell

abbrev pub is_bullish_pattern : Pattern → Bool
is_bullish_pattern hammer = true
is_bullish_pattern bullish_engulfing = true
is_bullish_pattern harami = true
is_bullish_pattern _ = false

abbrev pub is_bearish_pattern : Pattern → Bool
is_bearish_pattern shooting_star = true
is_bearish_pattern bearish_engulfing = true
is_bearish_pattern harami = true
is_bearish_pattern _ = false

unfoldable pub pattern_aligns_with_direction : Option Pattern → Direction → Bool
pattern_aligns_with_direction none d = false
pattern_aligns_with_direction (some p) d =
    if is_buy d then is_bullish_pattern p else is_bearish_pattern p

unfoldable pub stop_margin_pct : String → Decimal
stop_margin_pct symbol = if str_eq symbol "BTCUSDT" then fixed 15 3 else fixed 2 2

unfoldable pub stop_beyond : Direction → Decimal → List Candle → Decimal
stop_beyond d margin [] = whole 0
stop_beyond d margin (c ∷ cs) =
    if is_buy d
    then lowest c.low cs ⊗ (whole 1 ⊖ margin)
    else highest c.high cs ⊗ (whole 1 ⊕ margin)

-- min() of no candles raises; the scanner has 25 at least.
unfoldable pub calculate_stop_loss : Direction → List Candle → String → Decimal
unfolding stop_beyond window stop_margin_pct
calculate_stop_loss d candles symbol = stop_beyond d (stop_margin_pct symbol) (window 5 candles)

abbrev pub is_ahead : Direction → Decimal → Decimal → Bool
is_ahead d entry price = if is_buy d then lt entry price else lt price entry

unfoldable pub keep_ahead : Direction → Decimal → List Decimal → List Decimal
keep_ahead d entry [] = []
keep_ahead d entry (p ∷ ps) =
    let rest = keep_ahead d entry ps in if is_ahead d entry p then p ∷ rest else rest

-- `sorted`, with `reverse` for a sale: a price goes before the first that is further away.
unfoldable pub insert_sorted : Direction → Decimal → List Decimal → List Decimal
insert_sorted d p [] = p ∷ []
insert_sorted d p (q ∷ qs) =
    let rest = insert_sorted d p qs in if is_ahead d q p then q ∷ rest else p ∷ q ∷ qs

unfoldable pub sort_prices : Direction → List Decimal → List Decimal
unfolding insert_sorted
sort_prices d [] = []
sort_prices d (p ∷ ps) = insert_sorted d p (sort_prices d ps)

unfoldable pub targets_from : Direction → Decimal → Option (Decimal × Decimal) → List Decimal
unfolding keep_ahead sort_prices
targets_from d entry none = []
targets_from d entry (some (low, high)) =
    sort_prices d
      (keep_ahead d entry (map (λ l. l.1) (calculate_extension_levels low high (is_buy d))))

unfoldable pub calculate_targets : Direction → List Candle → Decimal → List Decimal
unfolding targets_from find_swing_points
calculate_targets d candles entry = targets_from d entry (find_swing_points 50 candles)

-- The signal with what it rests on; its ratios and texts are left out.
pub record Detected : Type 0 where
  pub signal : DivapSignal
  pub criteria : DivapCriteria
  pub divergence_type : DivergenceType
  pub pattern : Option Pattern
  pub fibo_level : Option (Decimal × Decimal)

abbrev pub last_candle_close : List Candle → Decimal
last_candle_close [] = whole 0
last_candle_close (c ∷ cs) = (get_last c cs).close

abbrev pub last_rsi : {R : Type 0} → List (Option R) → Option R
last_rsi [] = none
last_rsi (r ∷ rs) = get_last r rs

abbrev pub criteria_of : Bool → Bool → Option (Decimal × Decimal) → Option Pattern → DivapCriteria
criteria_of divergent volume fibo pattern = record {
  divergence = divergent;
  volume = volume;
  fibonacci = is_some fibo;
  pattern = is_some pattern;
}

module _ (symbol timeframe : String) (candles : List Candle) where
  unfoldable pub signal_for :
      DivapCriteria
      → DivergenceType
      → Option Pattern
      → Option (Decimal × Decimal)
      → Confidence
      → Detected
  unfolding calculate_stop_loss calculate_targets
  signal_for criteria type pattern fibo confidence =
      let d = direction_of type in
      let entry = last_candle_close candles in
      record {
        signal = record {
          symbol = symbol;
          timeframe = timeframe;
          direction = d;
          confidence = confidence;
          entry_price = entry;
          stop_price = calculate_stop_loss d candles symbol;
          targets = calculate_targets d candles entry;
        };
        criteria = criteria;
        divergence_type = type;
        pattern = pattern;
        fibo_level = fibo;
      }

  -- A pattern that is there must fit the direction.
  unfoldable pub checked :
      DivapCriteria
      → DivergenceType
      → Option Pattern
      → Option (Decimal × Decimal)
      → Option Confidence
      → Option Detected
  unfolding signal_for pattern_aligns_with_direction
  checked criteria type pattern fibo none = none
  checked criteria type pattern fibo (some confidence) =
      if is_some pattern && not (pattern_aligns_with_direction pattern (direction_of type))
      then none
      else some (signal_for criteria type pattern fibo confidence)

  -- Without a divergence there is no confidence.
  unfoldable pub conclude :
      {R : Type 0}
      → Option (DivergenceResult R)
      → Bool
      → Option (Decimal × Decimal)
      → Option Pattern
      → Option Detected
  unfolding checked resolve_confidence
  conclude none volume fibo pattern = none
  conclude (some divergence) volume fibo pattern =
      let criteria = criteria_of true volume fibo pattern in
      checked criteria divergence.divergence_type pattern fibo (resolve_confidence criteria)

  -- compute_rsi_series of src/indicators/rsi.py is pandas_ta's, with the order of its values.
  unfoldable pub scan :
      {R : Type 0} → (List Candle → List (Option R)) → (R → R → Bool) → Option Detected
  unfolding conclude detect_divergence is_volume_above_average price_at_extension_target
      detect_reversal_pattern
  scan rsi_series below =
      let rsi = rsi_series candles in
      if ltb (length candles) 25 || not (is_some (last_rsi rsi))
      then none
      else conclude (detect_divergence below candles rsi) (is_volume_above_average candles)
          (price_at_extension_target candles) (detect_reversal_pattern candles)
