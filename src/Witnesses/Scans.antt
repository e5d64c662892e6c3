-- ===== src/Witnesses/Scans.antt =====
-- The theorems on the scanner at 25 candles with two falling lows under a rising RSI, a hammer and a volume
-- at the end.
use divap_trader.Base.{
  ℕ, zero, suc, ◌≡◌, refl, true, false, some, List, [], ◌∷◌, ◌++◌, Option, is_some, ltb,
}
use divap_trader.Decimals.{
  whole, fixed, is_neg, lt, quotient, sum, maximum, minimum, le, abs, ◌⊗◌, ◌⊖◌,
}
use divap_trader.Market.{Candle}
use divap_trader.Profiles.ExitPolicy.Fibonacci.{
  extension, find_swing_points, calculate_extension_levels, lowest, highest,
}
use divap_trader.Detection.Levels.{price_at_extension_target}
use divap_trader.Detection.Scanner.{scan}
use divap_trader.Detection.Wide.{price_at_extension_target-wide}

abbrev flat : Candle
flat = record {
  timestamp = 0;
  open_price = whole 105;
  high = whole 110;
  low = whole 100;
  close = whole 105;
  volume = whole 10;
}

abbrev dip : ℕ → Candle
dip n = record flat { low = whole n }

abbrev bar : Candle
bar = record flat { close = whole 106; high = fixed 1062 1; volume = whole 100 }

abbrev copies : {A : Type 0} → ℕ → A → List A
copies zero a = []
copies (suc n) a = a ∷ copies n a

abbrev candles : List Candle
candles = copies 10 flat ++ dip 95 ∷ copies 8 flat ++ dip 90 ∷ copies 4 flat ++ bar ∷ []

abbrev rsi : List Candle → List (Option ℕ)
rsi cs = copies 10 (some 50) ++ some 30 ∷ copies 8 (some 50) ++ some 40 ∷ copies 5 (some 50)

found : is_some (scan "BTCUSDT" "1h" candles rsi ltb) ≡ true
unfolding scan lt quotient sum calculate_extension_levels extension highest maximum ◌⊗◌ ◌⊖◌ lowest
    minimum le abs
found = refl

abbrev wide : List Candle
wide = record flat { low = whole 50 } ∷ flat ∷ []

swings : find_swing_points 50 (flat ∷ wide) ≡ some (whole 50, whole 110)
unfolding find_swing_points lowest highest minimum maximum lt
swings = refl

below_zero : is_neg (extension false (whole 50) (whole 110) (fixed 2618 3)) ≡ true
unfolding extension ◌⊖◌ ◌⊗◌
below_zero = refl

price_at_extension_target-wide_example : is_some (price_at_extension_target (flat ∷ wide)) ≡ true
price_at_extension_target-wide_example =
    price_at_extension_target-wide flat wide (whole 50) (whole 110) swings below_zero
