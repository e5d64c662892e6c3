-- ===== src/Detection/Divergence.antt =====
-- src/detection/divergence.py. The float of a price stands for the price, and R is the type of the RSI,
-- with its order.
use divap_trader.Base.{
  ℕ, ◌+◌, ◌-◌, Bool, true, ◌&&◌, ◌||◌, not, Option, none, some, List, [], ◌∷◌, length, leb, ltb,
  ◌==◌, map, if◌then◌else◌, get_elem?,
}
use divap_trader.Decimals.{Decimal, lt}
use divap_trader.Market.{Candle}
use divap_trader.Profiles.ExitPolicy.Fibonacci.{drop}

pub data DivergenceType : Type 0 where
  bullish bearish : DivergenceType

pub record DivergenceResult (R : Type 0) : Type 0 where
  pub divergence_type : DivergenceType
  pub price_pivot_1 : Decimal
  pub price_pivot_2 : Decimal
  pub rsi_pivot_1 : R
  pub rsi_pivot_2 : R
  pub pivot_index_1 : ℕ
  pub pivot_index_2 : ℕ

abbrev far_enough : Option ℕ → ℕ → Bool
far_enough none i = true
far_enough (some last) i = leb (last + 3) i

-- The indices of the points beyond both neighbours, at least 3 apart; i is the index of the second price.
unfoldable pub find_swing_indices :
    (Decimal → Decimal → Bool) → ℕ → Option ℕ → List Decimal → List ℕ
find_swing_indices beyond i last [] = []
find_swing_indices beyond i last (a ∷ []) = []
find_swing_indices beyond i last (a ∷ b ∷ []) = []
find_swing_indices beyond i last (a ∷ b ∷ c ∷ rest) =
    let hit = beyond b a && beyond b c && far_enough last i in
    let later = find_swing_indices beyond (i + 1) (if hit then some i else last) (b ∷ c ∷ rest) in
    if hit then i ∷ later else later

-- The last two indices
unfoldable pub last_pair : List ℕ → Option (ℕ × ℕ)
last_pair [] = none
last_pair (i ∷ []) = none
last_pair (i ∷ j ∷ []) = some (i, j)
last_pair (i ∷ j ∷ k ∷ rest) = last_pair (j ∷ k ∷ rest)

abbrev pub divergence_lookback : ℕ
divergence_lookback = 20

-- The price and the RSI at an index, if both are there.
abbrev pub point_of : {R : Type 0} → Option Decimal → Option (Option R) → Option (Decimal × R)
point_of none r = none
point_of (some price) none = none
point_of (some price) (some none) = none
point_of (some price) (some (some r)) = some (price, r)

abbrev pub point_at : {R : Type 0} → List Decimal → List (Option R) → ℕ → Option (Decimal × R)
point_at prices rsi i = point_of (get_elem? prices i) (get_elem? rsi i)

module _ {R : Type 0} where
  unfoldable pub divergence_of :
      DivergenceType
      → (Decimal → Decimal → Bool)
      → (R → R → Bool)
      → ℕ
      → ℕ × ℕ
      → Option (Decimal × R)
      → Option (Decimal × R)
      → Option (DivergenceResult R)
  divergence_of type beyond opposed offset (i, j) none q = none
  divergence_of type beyond opposed offset (i, j) (some p) none = none
  divergence_of type beyond opposed offset (i, j) (some (price_1, rsi_1)) (some (price_2, rsi_2)) =
      if beyond price_2 price_1 && opposed rsi_2 rsi_1
      then some (record {
        divergence_type = type;
        price_pivot_1 = price_1;
        price_pivot_2 = price_2;
        rsi_pivot_1 = rsi_1;
        rsi_pivot_2 = rsi_2;
        pivot_index_1 = offset + i;
        pivot_index_2 = offset + j;
      })
      else none

  unfoldable pub detect_from :
      DivergenceType
      → (Decimal → Decimal → Bool)
      → (R → R → Bool)
      → ℕ
      → List Decimal
      → List (Option R)
      → Option (ℕ × ℕ)
      → Option (DivergenceResult R)
  unfolding divergence_of
  detect_from type beyond opposed offset prices rsi none = none
  detect_from type beyond opposed offset prices rsi (some (i, j)) =
      divergence_of type beyond opposed offset (i, j) (point_at prices rsi i)
        (point_at prices rsi j)

  -- `_detect_bullish` and `_detect_bearish`
  unfoldable pub detect_side :
      DivergenceType
      → (Decimal → Decimal → Bool)
      → (R → R → Bool)
      → ℕ
      → List Decimal
      → List (Option R)
      → Option (DivergenceResult R)
  unfolding detect_from find_swing_indices last_pair
  detect_side type beyond opposed offset prices rsi =
      detect_from type beyond opposed offset prices rsi
        (last_pair (find_swing_indices beyond 1 none prices))

  abbrev pub or_other :
      Option (DivergenceResult R) → Option (DivergenceResult R) → Option (DivergenceResult R)
  or_other none other = other
  or_other (some d) other = some d

  -- `below` is the order < of the RSI.
  unfoldable pub detect_divergence :
      (R → R → Bool) → List Candle → List (Option R) → Option (DivergenceResult R)
  unfolding detect_side drop
  detect_divergence below candles rsi =
      let offset = length candles - divergence_lookback in
      let window = drop offset candles in
      let window_rsi = drop offset rsi in
      if ltb (length candles) divergence_lookback || not (length rsi == length candles)
      then none
      else or_other
          (detect_side bullish lt (λ r s. below s r) offset (map (λ c. c.low) window) window_rsi)
          (detect_side bearish (λ p q. lt q p) below offset (map (λ c. c.high) window) window_rsi)
