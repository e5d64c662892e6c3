-- ===== src/Detection/Evidence.antt =====
-- What a divergence and a loud candle say of the candles and the RSI.
use divap_trader.Base.{
  ℕ, zero, suc, ◌+◌, ◌-◌, ◌≡◌, refl, sym, ap, ◌∙◌, subst, Bool, true, false, ◌&&◌, not, ◌||◌,
  Option, option_or, none, some, List, [], ◌∷◌, map, arith, length, ltb, leb, get_elem?,
  if◌then◌else◌, ◌==◌, get_last,
}
use divap_trader.Decimals.{Decimal, whole, lt, quotient, sum}
use divap_trader.Data.Trades.{Direction, is_buy}
use divap_trader.Market.{Candle}
use divap_trader.Profiles.ExitPolicy.Fibonacci.{drop}
use divap_trader.Detection.Patterns.{
  exceeds, volume_over, volume_ma_period, is_volume_above_average, compute_volume_ma, but_last,
}
use divap_trader.Detection.Scanner.{direction_of}
use divap_trader.Detection.Divergence.{
  DivergenceType, DivergenceResult, bullish, bearish, point_of, divergence_of, detect_from,
  detect_side, detect_divergence, divergence_lookback, or_other, find_swing_indices, last_pair,
}

-- Two candles with their RSI, of which a test holds.
pub record Pivots {R : Type 0} (candles : List Candle) (rsi : List (Option R))
    (test : Candle → Candle → R → R → Bool) : Type 0 where
  pub index_1 : ℕ
  pub index_2 : ℕ
  pub candle_1 : Candle
  pub candle_2 : Candle
  pub rsi_1 : R
  pub rsi_2 : R
  pub at_1 : get_elem? candles index_1 ≡ some candle_1
  pub at_2 : get_elem? candles index_2 ≡ some candle_2
  pub rsi_at_1 : get_elem? rsi index_1 ≡ some (some rsi_1)
  pub rsi_at_2 : get_elem? rsi index_2 ≡ some (some rsi_2)
  pub passed : test candle_1 candle_2 rsi_1 rsi_2 ≡ true

-- The prices and the RSI go apart: for a purchase the second low is below the first under a higher RSI, for a
-- sale the second high is above the first under a lower RSI.
abbrev pub diverging : {R : Type 0} → (R → R → Bool) → Direction → Candle → Candle → R → R → Bool
diverging below d c c' r r' =
    if is_buy d then lt c'.low c.low && below r r' else lt c.high c'.high && below r' r

-- The last candle has more volume than the 20 candles before it have in the mean.
pub record IsLoud (candles : List Candle) : Type 0 where
  pub long_enough : leb 21 (length candles) ≡ true
  pub first : Candle
  pub others : List Candle
  pub shape : candles ≡ first ∷ others
  pub louder :
      let before = but_last candles in
      lt
        (quotient (sum (map (λ c. c.volume) (drop (length before - 20) before))) (whole 20))
        (get_last first others).volume
      ≡ true

unless_found :
    {A : Type 0} (b : Bool) (o : Option A) {a : A} → (if b then none else o) ≡ some a → o ≡ some a
unless_found true o h = ground arith
unless_found false o h = h

exceeds_found :
    (v : Decimal) (o : Option Decimal)
    → exceeds v o ≡ true
    → (a : Decimal) × ((o ≡ some a) × (lt a v ≡ true))
exceeds_found v none h = ground arith
exceeds_found v (some a) h = (a, (refl, ground arith))

long_and :
    (n : ℕ) (b : Bool) → (if ltb n 21 then false else b) ≡ true → (leb 21 n ≡ true) × (b ≡ true)
long_and n b h = (ground arith, ground arith)

pub is_volume_above_average-IsLoud :
    (candles : List Candle) → is_volume_above_average candles ≡ true → IsLoud candles
unfolding is_volume_above_average compute_volume_ma
is_volume_above_average-IsLoud [] h = ground arith
is_volume_above_average-IsLoud (c ∷ cs) h =
    let before = but_last (c ∷ cs) in
    let (long, over) =
      long_and (length (c ∷ cs)) (volume_over (c ∷ cs) (compute_volume_ma before)) h in
    let (mean, (computed, louder)) =
      exceeds_found (get_last c cs).volume (compute_volume_ma before) over in
    record {
      long_enough = long;
      first = c;
      others = cs;
      shape = refl;
      louder =
          ap (λ o. lt (option_or o mean) (get_last c cs).volume)
            (unless_found (ltb (length before) volume_ma_period)
              (some (
                quotient (sum (map (λ c. c.volume) (drop (length before - 20) before))) (whole 20)))
              computed)
          ∙ louder;
    }

get_elem?-drop :
    {A : Type 0} (n : ℕ) (xs : List A) (i : ℕ) → get_elem? (drop n xs) i ≡ get_elem? xs (n + i)
unfolding drop
get_elem?-drop zero xs i = ap (get_elem? xs) (omega arith)
get_elem?-drop (suc n) [] i = refl
get_elem?-drop (suc n) (x ∷ xs) i =
    let later : suc (n + i) ≡ suc n + i = omega arith in
    get_elem?-drop n xs i ∙ ap (get_elem? (x ∷ xs)) later

get_elem?-map :
    {A B : Type 0} (f : A → B) (xs : List A) (i : ℕ) {b : B}
    → get_elem? (map f xs) i ≡ some b
    → (a : A) × ((get_elem? xs i ≡ some a) × (b ≡ f a))
get_elem?-map f [] i h = ground arith
get_elem?-map f (x ∷ xs) zero h = (x, (refl, ground arith))
get_elem?-map f (x ∷ xs) (suc i) h = get_elem?-map f xs i h

module _ {R : Type 0} where
  point_found :
      (o : Option Decimal) (q : Option (Option R)) {p : Decimal} {r : R}
      → point_of o q ≡ some (p, r)
      → (o ≡ some p) × (q ≡ some (some r))
  point_found none q h = ground arith
  point_found (some x) none h = ground arith
  point_found (some x) (some none) h = ground arith
  point_found (some x) (some (some y)) h = (ground arith, ground arith)

  -- What stands behind a divergence between two points.
  divergence_found :
      (type : DivergenceType) (beyond : Decimal → Decimal → Bool) (opposed : R → R → Bool)
      (offset : ℕ) (pair : ℕ × ℕ) (o q : Option (Decimal × R)) {d : DivergenceResult R}
      → divergence_of type beyond opposed offset pair o q ≡ some d
      → (x : Decimal × R) × ((y : Decimal × R) × ((o ≡ some x)
            × ((q ≡ some y)
                × (((beyond y.0 x.0 && opposed y.1 x.1) ≡ true) × (type ≡ d.divergence_type)))))
  unfolding divergence_of
  divergence_found type beyond opposed offset (i, j) none q h = ground arith
  divergence_found type beyond opposed offset (i, j) (some p) none h = ground arith
  divergence_found type beyond opposed offset (i, j) (some p) (some q) h =
      (p, (q, (refl, (refl, (ground arith, ground arith)))))

  -- A point of the window is a point of all candles.
  window_point :
      (f : Candle → Decimal) (offset : ℕ) (candles : List Candle) (rsi : List (Option R)) (i : ℕ)
      {p : Decimal} {r : R}
      → point_of (get_elem? (map f (drop offset candles)) i) (get_elem? (drop offset rsi) i)
        ≡ some (p, r)
      → (c : Candle) × ((get_elem? candles (offset + i) ≡ some c)
          × ((get_elem? rsi (offset + i) ≡ some (some r)) × (p ≡ f c)))
  window_point f offset candles rsi i h =
      let (price, at) = point_found _ _ h in
      let (c, (found, is)) = get_elem?-map f (drop offset candles) i price in
      (
        c,
        (
          sym (get_elem?-drop offset candles i) ∙ found,
          (sym (get_elem?-drop offset rsi i) ∙ at, is),
        ),
      )

  module _ (candles : List Candle) (rsi : List (Option R)) (offset : ℕ) where
    side_found :
        (type : DivergenceType) (beyond : Decimal → Decimal → Bool) (opposed : R → R → Bool)
        (f : Candle → Decimal) (pair : Option (ℕ × ℕ)) {d : DivergenceResult R}
        → detect_from type beyond opposed offset
            (map f (drop offset candles))
            (drop offset rsi)
            pair
          ≡ some d
        → Pivots candles rsi (λ c c' r r'. beyond (f c') (f c) && opposed r' r)
          × (type ≡ d.divergence_type)
    unfolding detect_from
    side_found type beyond opposed f none h = ground arith
    side_found type beyond opposed f (some (i, j)) h =
        let ((p, r), ((p', r'), (one, (two, (apart, same))))) =
          divergence_found type beyond opposed offset (i, j) _ _ h in
        let (c, (at, (rsi_at, is))) = window_point f offset candles rsi i one in
        let (c', (at', (rsi_at', is'))) = window_point f offset candles rsi j two in
        (
          record {
            index_1 = offset + i;
            index_2 = offset + j;
            candle_1 = c;
            candle_2 = c';
            rsi_1 = r;
            rsi_2 = r';
            at_1 = at;
            at_2 = at';
            rsi_at_1 = rsi_at;
            rsi_at_2 = rsi_at';
            passed =
                ap (λ x. beyond x (f c) && opposed r' r) (sym is')
                ∙ ap (λ x. beyond p' x && opposed r' r) (sym is)
                ∙ apart;
          },
          same,
        )

  module _ (below : R → R → Bool) (candles : List Candle) (rsi : List (Option R)) where
    abbrev pub Diverges : DivergenceType → Type 0
    Diverges type = Pivots candles rsi (diverging below (direction_of type))

    of_type :
        (type : DivergenceType) {other : DivergenceType}
        → Diverges type × (type ≡ other)
        → Diverges other
    of_type type h = subst Diverges h.1 h.0

    one_found :
        (o q : Option (DivergenceResult R)) {d : DivergenceResult R}
        → ((x : DivergenceResult R) → o ≡ some x → Diverges x.divergence_type)
        → ((x : DivergenceResult R) → q ≡ some x → Diverges x.divergence_type)
        → or_other o q ≡ some d
        → Diverges d.divergence_type
    one_found none q {d} h k e = k d e
    one_found (some x) q {d} h k e = h d e

    pub detect_divergence-Diverges :
        {d : DivergenceResult R}
        → detect_divergence below candles rsi ≡ some d
        → Diverges d.divergence_type
    unfolding detect_divergence detect_side
    detect_divergence-Diverges h =
        let offset = length candles - divergence_lookback in
        let lows = map (λ c. c.low) (drop offset candles) in
        let highs = map (λ c. c.high) (drop offset candles) in
        let window_rsi = drop offset rsi in
        let bull = detect_side bullish lt (λ r s. below s r) offset lows window_rsi in
        let bear = detect_side bearish (λ p q. lt q p) below offset highs window_rsi in
        one_found bull bear
          (λ x e. of_type bullish (
            side_found candles rsi offset bullish lt (λ r s. below s r) (λ c. c.low)
              (last_pair (find_swing_indices lt 1 none lows)) e))
          (λ x e. of_type bearish (
            side_found candles rsi offset bearish (λ p q. lt q p) below (λ c. c.high)
              (last_pair (find_swing_indices (λ p q. lt q p) 1 none highs)) e))
          (unless_found
            (ltb (length candles) divergence_lookback || not (length rsi == length candles))
            (or_other bull bear) h)
