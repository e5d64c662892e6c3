-- ===== src/Detection/Levels.antt =====
-- The search of the extension level that the price is at (src/indicators/fibonacci.py).
use divap_trader.Base.{
  Bool, true, false, Option, none, some, List, [], ◌∷◌, if◌then◌else◌, get_last,
}
use divap_trader.Decimals.{Decimal, fixed, ◌⊖◌, abs, quotient, le, is_zero}
use divap_trader.Market.{Candle}
use divap_trader.Profiles.ExitPolicy.Fibonacci.{find_swing_points, calculate_extension_levels}

abbrev pub fibo_tolerance_pct : Decimal
fibo_tolerance_pct = fixed 3 3

unfoldable pub is_near : Decimal → Decimal → Bool
is_near price level = le (quotient (abs (price ⊖ level)) level) fibo_tolerance_pct

unfoldable pub find_nearest_extension_level :
    Decimal → List (Decimal × Decimal) → Option (Decimal × Decimal)
unfolding is_near
find_nearest_extension_level price [] = none
find_nearest_extension_level price ((ratio, level) ∷ rest) =
    let later = find_nearest_extension_level price rest in
    if is_zero level then later else if is_near price level then some (ratio, level) else later

abbrev pub or_then :
    Option (Decimal × Decimal) → Option (Decimal × Decimal) → Option (Decimal × Decimal)
or_then none other = other
or_then (some hit) other = some hit

-- Above the swings first, then below.
unfoldable pub hit_at : Decimal → Option (Decimal × Decimal) → Option (Decimal × Decimal)
unfolding find_nearest_extension_level
hit_at price none = none
hit_at price (some (low, high)) =
    or_then (find_nearest_extension_level price (calculate_extension_levels low high true))
      (find_nearest_extension_level price (calculate_extension_levels low high false))

unfoldable pub price_at_extension_target : List Candle → Option (Decimal × Decimal)
unfolding hit_at find_swing_points
price_at_extension_target [] = none
price_at_extension_target (c ∷ cs) = hit_at (get_last c cs).close (find_swing_points 50 (c ∷ cs))
