-- ===== src/Detection/Targets.antt =====
-- The targets lie ahead of the entry, the nearest first.
use divap_trader.Base.{
  ◌≡◌, refl, Bool, true, false, Option, none, some, List, [], ◌∷◌, All, map, if◌then◌else◌,
}
use divap_trader.Decimals.{Decimal, lt}
use divap_trader.Decimals.Order.{le_trans, le_of_not_lt, not_lt_of_le, le_of_lt}
use divap_trader.Data.Trades.{Direction, is_buy}
use divap_trader.Market.{Candle}
use divap_trader.Profiles.ExitPolicy.Fibonacci.{find_swing_points, calculate_extension_levels}
use divap_trader.Detection.Scanner.{
  is_ahead, keep_ahead, insert_sorted, sort_prices, targets_from, calculate_targets,
}

-- No price comes before one that is nearer.
abbrev pub NearestFirst : Direction → List Decimal → Type 0
NearestFirst d [] = Unit
NearestFirst d (p ∷ ps) = All (λ q. is_ahead d q p ≡ false) ps × NearestFirst d ps

abbrev pub Ahead : Direction → Decimal → List Decimal → Type 0
Ahead d entry ps = All (λ p. is_ahead d entry p ≡ true) ps

not_lt_trans : (a b c : Decimal) → lt a b ≡ false → lt b c ≡ false → lt a c ≡ false
not_lt_trans a b c p q = not_lt_of_le a c (le_trans c b a (le_of_not_lt b c q) (le_of_not_lt a b p))

lt_asym : (a b : Decimal) → lt a b ≡ true → lt b a ≡ false
lt_asym a b h = not_lt_of_le b a (le_of_lt a b h)

by_side :
    (b : Bool) (x y z : Decimal)
    → (if b then lt x y else lt y x) ≡ false
    → (if b then lt y z else lt z y) ≡ false
    → (if b then lt x z else lt z x) ≡ false
by_side true x y z p q = not_lt_trans x y z p q
by_side false x y z p q = not_lt_trans z y x q p

behind_trans :
    (d : Direction) (x y z : Decimal)
    → is_ahead d x y ≡ false
    → is_ahead d y z ≡ false
    → is_ahead d x z ≡ false
behind_trans d x y z p q = by_side (is_buy d) x y z p q

side_asym :
    (b : Bool) (x y : Decimal)
    → (if b then lt x y else lt y x) ≡ true
    → (if b then lt y x else lt x y) ≡ false
side_asym true x y h = lt_asym x y h
side_asym false x y h = lt_asym y x h

ahead_asym : (d : Direction) (x y : Decimal) → is_ahead d x y ≡ true → is_ahead d y x ≡ false
ahead_asym d x y h = side_asym (is_buy d) x y h

module _ (d : Direction) where
  branch-All :
      (P : Decimal → Type 0) (b : Bool) (p q : Decimal) (qs rest : List Decimal)
      → P p
      → P q
      → All P qs
      → All P rest
      → All P (if b then q ∷ rest else p ∷ q ∷ qs)
  branch-All P true p q qs rest h k ks r = (k, r)
  branch-All P false p q qs rest h k ks r = (h, (k, ks))

  insert-All :
      (P : Decimal → Type 0) (p : Decimal) (ps : List Decimal)
      → P p
      → All P ps
      → All P (insert_sorted d p ps)
  unfolding insert_sorted
  insert-All P p [] h hs = (h, tt)
  insert-All P p (q ∷ qs) h (k, ks) = branch-All P _ p q qs _ h k ks (insert-All P p qs h ks)

  behind-All :
      (p q : Decimal) (qs : List Decimal)
      → is_ahead d q p ≡ false
      → All (λ x. is_ahead d x q ≡ false) qs
      → All (λ x. is_ahead d x p ≡ false) qs
  behind-All p q [] h ks = tt
  behind-All p q (x ∷ xs) h (k, ks) = (behind_trans d x q p k h, behind-All p q xs h ks)

  branch-NearestFirst :
      (b : Bool) (p q : Decimal) (qs rest : List Decimal)
      → is_ahead d q p ≡ b
      → All (λ x. is_ahead d x q ≡ false) qs
      → NearestFirst d qs
      → (is_ahead d p q ≡ false → All (λ x. is_ahead d x q ≡ false) rest)
      → NearestFirst d rest
      → NearestFirst d (if b then q ∷ rest else p ∷ q ∷ qs)
  branch-NearestFirst true p q qs rest e k s r t = (r (ahead_asym d q p e), t)
  branch-NearestFirst false p q qs rest e k s r t = ((e, behind-All p q qs e k), (k, s))

  insert-NearestFirst :
      (p : Decimal) (ps : List Decimal) → NearestFirst d ps → NearestFirst d (insert_sorted d p ps)
  unfolding insert_sorted
  insert-NearestFirst p [] s = (tt, tt)
  insert-NearestFirst p (q ∷ qs) (k, s) =
      branch-NearestFirst _ p q qs _ refl k s (λ e. insert-All _ p qs e k)
        (insert-NearestFirst p qs s)

  sort-NearestFirst : (ps : List Decimal) → NearestFirst d (sort_prices d ps)
  unfolding sort_prices
  sort-NearestFirst [] = tt
  sort-NearestFirst (p ∷ ps) = insert-NearestFirst p (sort_prices d ps) (sort-NearestFirst ps)

  module _ (entry : Decimal) where
    sort-Ahead : (ps : List Decimal) → Ahead d entry ps → Ahead d entry (sort_prices d ps)
    unfolding sort_prices
    sort-Ahead [] h = tt
    sort-Ahead (p ∷ ps) (h, hs) = insert-All _ p (sort_prices d ps) h (sort-Ahead ps hs)

    kept :
        (b : Bool) (p : Decimal) (rest : List Decimal)
        → is_ahead d entry p ≡ b
        → Ahead d entry rest
        → Ahead d entry (if b then p ∷ rest else rest)
    kept true p rest e h = (e, h)
    kept false p rest e h = h

    keep_ahead-Ahead : (ps : List Decimal) → Ahead d entry (keep_ahead d entry ps)
    unfolding keep_ahead
    keep_ahead-Ahead [] = tt
    keep_ahead-Ahead (p ∷ ps) = kept _ p _ refl (keep_ahead-Ahead ps)

    targets_from-Ahead :
        (swings : Option (Decimal × Decimal))
        → Ahead d entry (targets_from d entry swings) × NearestFirst d (targets_from d entry swings)
    unfolding targets_from
    targets_from-Ahead none = (tt, tt)
    targets_from-Ahead (some (low, high)) =
        let prices = map (λ l. l.1) (calculate_extension_levels low high (is_buy d)) in
        let kept_prices = keep_ahead d entry prices in
        (sort-Ahead kept_prices (keep_ahead-Ahead prices), sort-NearestFirst kept_prices)

    pub calculate_targets-Ahead :
        (candles : List Candle)
        → Ahead d entry (calculate_targets d candles entry)
          × NearestFirst d (calculate_targets d candles entry)
    unfolding calculate_targets
    calculate_targets-Ahead candles = targets_from-Ahead (find_swing_points 50 candles)
