-- ===== src/Profiles/ExitPolicy/Fibonacci.antt =====
-- Swing points and extension levels (src/indicators/fibonacci.py).
use divap_trader.Base.{
  ℕ, zero, suc, ◌-◌, Bool, false, Option, none, some, List, [], ◌∷◌, length, leb, ltb,
  if◌then◌else◌, map,
}
use divap_trader.Decimals.{Decimal, fixed, ◌⊕◌, ◌⊖◌, ◌⊗◌, minimum, maximum, le}
use divap_trader.Market.{Candle}

abbrev pub fibo_targets : List Decimal
fibo_targets = fixed 618 3 ∷ fixed 10 1 ∷ fixed 1618 3 ∷ fixed 20 1 ∷ fixed 2618 3 ∷ []

-- xs[n:]
unfoldable pub drop {ℓ} : {A : Type ℓ} → ℕ → List A → List A
drop zero xs = xs
drop (suc n) [] = []
drop (suc n) (x ∷ xs) = drop n xs

-- candles[-lookback:] where there are as many
unfoldable pub window : ℕ → List Candle → List Candle
unfolding drop
window lookback candles =
    if leb lookback (length candles) then drop (length candles - lookback) candles else candles

unfoldable pub lowest : Decimal → List Candle → Decimal
lowest d [] = d
lowest d (c ∷ cs) = lowest (minimum d c.low) cs

unfoldable pub highest : Decimal → List Candle → Decimal
highest d [] = d
highest d (c ∷ cs) = highest (maximum d c.high) cs

unfoldable pub swings_of : List Candle → Option (Decimal × Decimal)
swings_of [] = none
swings_of (c ∷ cs) = some (lowest c.low cs, highest c.high cs)

-- (swing_low, swing_high)
unfoldable pub find_swing_points : ℕ → List Candle → Option (Decimal × Decimal)
unfolding window swings_of
find_swing_points lookback candles =
    if ltb (length candles) 3 then none else swings_of (window lookback candles)

unfoldable pub extension : Bool → Decimal → Decimal → Decimal → Decimal
extension up low high ratio =
    let diff = high ⊖ low in if up then high ⊕ diff ⊗ ratio else low ⊖ diff ⊗ ratio

unfoldable pub calculate_extension_levels : Decimal → Decimal → Bool → List (Decimal × Decimal)
calculate_extension_levels low high up =
    map (λ ratio. (ratio, extension up low high ratio)) fibo_targets

-- levels.get(ratio), where keys compare by value
unfoldable pub level_at : Decimal → List (Decimal × Decimal) → Option Decimal
level_at ratio [] = none
level_at ratio ((r, price) ∷ levels) =
    if (if le r ratio then le ratio r else false) then some price else level_at ratio levels
