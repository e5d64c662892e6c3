-- ===== src/Detection/Wide.antt =====
-- The level search of the scanner at a negative level.
use divap_trader.Base.{
  ℕ, ◌≡◌, refl, Bool, true, false, ◌||◌, Option, none, some, List, [], ◌∷◌, any, is_some, arith,
  if◌then◌else◌, get_last, le→leb,
}
use divap_trader.Base.Int.{pos, negsuc, pos_part, ◌*ℤ◌}
use divap_trader.Decimals.{Decimal, fixed, ◌⊖◌, abs, quotient, le, is_zero, is_neg}
use divap_trader.Market.{Candle}
use divap_trader.Profiles.ExitPolicy.Fibonacci.{
  extension, find_swing_points, calculate_extension_levels,
}
use divap_trader.Detection.Levels.{
  find_nearest_extension_level, is_near, fibo_tolerance_pct, or_then, hit_at,
  price_at_extension_target,
}

signed_quotient :
    (b : Bool) (k : ℕ) → b ≡ true → pos_part ((if b then negsuc 0 else pos 1) *ℤ pos k) ≡ 0
unfolding ◌*ℤ◌
signed_quotient true k h = ground arith
signed_quotient false k h = ground arith

quotient_negative :
    (x level : Decimal) → is_neg level ≡ true → pos_part (quotient (abs x) level).num ≡ 0
unfolding quotient abs
quotient_negative x level h = signed_quotient (is_neg level) _ h

within_tolerance : (a : Decimal) → pos_part a.num ≡ 0 → le a fibo_tolerance_pct ≡ true
unfolding le
within_tolerance a h = le→leb _ _ (rw h (omega arith))

-- A quotient of a distance by a negative level is not positive.
near_negative : (price level : Decimal) → is_neg level ≡ true → is_near price level ≡ true
unfolding is_near
near_negative price level h = within_tolerance _ (quotient_negative (price ⊖ level) level h)

negative_not_zero : (level : Decimal) → is_neg level ≡ true → is_zero level ≡ false
negative_not_zero level h = ground arith

nearest_step :
    (n z b : Bool) (hit : Decimal × Decimal) (later : Option (Decimal × Decimal)) (rest : Bool)
    → (n || rest) ≡ true
    → (n ≡ true → z ≡ false)
    → (n ≡ true → b ≡ true)
    → (rest ≡ true → is_some later ≡ true)
    → is_some (if z then later else if b then some hit else later) ≡ true
nearest_step true z b hit later rest h p q r = ground (arith, p refl, q refl)
nearest_step false true b hit later rest h p q r = r h
nearest_step false false true hit later rest h p q r = refl
nearest_step false false false hit later rest h p q r = r h

-- With a negative level among the levels the search finds a level, whatever the price.
pub find_nearest_extension_level-negative :
    (price : Decimal) (levels : List (Decimal × Decimal))
    → any (λ l. is_neg l.1) levels ≡ true
    → is_some (find_nearest_extension_level price levels) ≡ true
unfolding find_nearest_extension_level
find_nearest_extension_level-negative price [] h = ground arith
find_nearest_extension_level-negative price ((ratio, level) ∷ rest) h =
    nearest_step (is_neg level) _ _ (ratio, level) _ _ h (negative_not_zero level)
      (near_negative price level) (find_nearest_extension_level-negative price rest)

or_then_second :
    (a b : Option (Decimal × Decimal)) → is_some b ≡ true → is_some (or_then a b) ≡ true
or_then_second none b h = h
or_then_second (some x) b h = refl

last_of_five : (a b c d e : Bool) → e ≡ true → (a || (b || (c || (d || (e || false))))) ≡ true
last_of_five a b c d e h = ground arith

abbrev negative_at : Decimal → Decimal → Decimal → Bool
negative_at low high r = is_neg (extension false low high r)

hit_at_wide :
    (price low high : Decimal)
    → is_neg (extension false low high (fixed 2618 3)) ≡ true
    → is_some (hit_at price (some (low, high))) ≡ true
unfolding hit_at calculate_extension_levels
hit_at_wide price low high h =
    or_then_second (find_nearest_extension_level price (calculate_extension_levels low high true)) _
      (find_nearest_extension_level-negative price (calculate_extension_levels low high false) (
        last_of_five (negative_at low high (fixed 618 3)) (negative_at low high (fixed 10 1))
          (negative_at low high (fixed 1618 3)) (negative_at low high (fixed 20 1)) _ h))

-- Where the swings are so wide that the extension of 2.618 below them is negative, the scanner's level test
-- finds a level, whatever the last price.
pub price_at_extension_target-wide :
    (c : Candle) (cs : List Candle) (low high : Decimal)
    → find_swing_points 50 (c ∷ cs) ≡ some (low, high)
    → is_neg (extension false low high (fixed 2618 3)) ≡ true
    → is_some (price_at_extension_target (c ∷ cs)) ≡ true
unfolding price_at_extension_target
price_at_extension_target-wide c cs low high e h =
    rw e (hit_at_wide (get_last c cs).close low high h)
