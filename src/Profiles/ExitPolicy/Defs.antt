-- ===== src/Profiles/ExitPolicy/Defs.antt =====
-- The functions of src/profiles/exit_policy.py.
use divap_trader.Base.{
  ℕ, suc, ◌+◌, Bool, true, false, not, Option, none, some, List, [], ◌∷◌, leb, if◌then◌else◌,
  text_in, get_last,
}
use divap_trader.Base.Int.{ℤ, pos, leb_ℤ, ltb_ℤ}
use divap_trader.Decimals.{
  Decimal, whole, lt, ◌⊕◌, ◌⊖◌, ◌⊗◌, hundredth, quotient, quantize_by, round_down, minimum, is_pos,
}
use divap_trader.Data.Trades.{Direction, buy, sell, is_buy, TradeRecord, Instant}
use divap_trader.Market.{Candle, DivapSignal}
use divap_trader.Profiles.Models.{TradingProfile, ProfileExit, PartialTakeProfitLevel}
use divap_trader.Profiles.ExitPolicy.Fibonacci.{
  find_swing_points, calculate_extension_levels, level_at,
}

abbrev beyond : Direction → Decimal → Option Decimal → Option Decimal
beyond d entry none = none
beyond buy entry (some price) = if lt entry price then some price else none
beyond sell entry (some price) = if lt price entry then some price else none
beyond (Direction.other x) entry (some price) = none

-- Only the direction "buy" extends upwards; the look-back is the default of 50 candles.
unfoldable pub fibo_price :
    Direction → Option (Decimal × Decimal) → Decimal → Decimal → Option Decimal
fibo_price d none entry ratio = none
fibo_price d (some (low, high)) entry ratio =
    beyond d entry (level_at ratio (calculate_extension_levels low high (is_buy d)))

unfoldable pub fibo_take_profit_price : Direction → List Candle → Decimal → Decimal → Option Decimal
unfolding fibo_price
fibo_take_profit_price d candles entry ratio =
    fibo_price d (find_swing_points 50 candles) entry ratio

abbrev or_first : Option Decimal → Decimal → Option Decimal
or_first (some price) target = some price
or_first none target = some target

unfoldable pub target_with :
    DivapSignal → Option Decimal → Option (List Candle) → Decimal → Option Decimal
unfolding fibo_take_profit_price
target_with signal none candles target = some target
target_with signal (some ratio) none target = some target
target_with signal (some ratio) (some candles) target =
    or_first (fibo_take_profit_price signal.direction candles signal.entry_price ratio) target

abbrev first_target : List Decimal → Option Decimal
first_target [] = none
first_target (t ∷ ts) = some t

unfoldable pub resolve_take_profit :
    DivapSignal → TradingProfile → Option (List Candle) → Option Decimal
unfolding target_with
resolve_take_profit signal profile candles = elim (first_target signal.targets) [
  | none ↦ none
  | some target ↦ target_with signal profile.exit.take_profit_fibo candles target
]

unfoldable pub count_since : Instant → List Candle → ℕ
count_since opened [] = 0
count_since opened (c ∷ cs) =
    if leb opened c.timestamp then suc (count_since opened cs) else count_since opened cs

-- The move since the entry, in the trade's direction.
unfoldable pub move_pct : Direction → Decimal → Decimal → Decimal
move_pct d entry current =
    if is_buy d then quotient (current ⊖ entry) entry else quotient (entry ⊖ current) entry

-- candles[-1].close; the empty list fails the count before it.
abbrev last_close : List Candle → Decimal → Decimal
last_close [] entry = entry
last_close (c ∷ cs) entry = (get_last c cs).close

unfoldable pub time_stop_with :
    ProfileExit → Direction → List Candle → Option Decimal → Option Instant → Bool
unfolding count_since move_pct
time_stop_with rules d candles none opened = false
time_stop_with rules d candles (some entry) none = false
time_stop_with rules d candles (some entry) (some opened) =
    if ltb_ℤ (pos (count_since opened candles)) rules.time_stop_candles
    then false
    else if not (is_pos entry)
    then false
    else lt (move_pct d entry (last_close candles entry)) rules.time_stop_min_move_pct

unfoldable pub should_time_stop : TradeRecord → TradingProfile → List Candle → Bool
unfolding time_stop_with
should_time_stop trade profile candles =
    let rules = profile.exit in
    if leb_ℤ rules.time_stop_candles (pos 0)
    then false
    else if not (text_in trade.timeframe rules.time_stop_timeframes)
    then false
    else time_stop_with rules trade.direction candles trade.entry_price trade.opened_at

unfoldable pub uses_partial_take_profits : TradingProfile → Bool
uses_partial_take_profits profile = elim (profile.exit.partial_take_profits) [
  | [] ↦ false
  | _ ↦ true
]

-- Decimal(n), of an integer
abbrev pub of_int : ℤ → Decimal
of_int n = record { num = n; scale = 0 }

unfoldable pub level_price : Direction → Decimal → Decimal → PartialTakeProfitLevel → Decimal
level_price d entry final level =
    let fraction = hundredth (of_int level.distance_pct) in
    if is_buy d then entry ⊕ (final ⊖ entry) ⊗ fraction else entry ⊖ (entry ⊖ final) ⊗ fraction

unfoldable pub compute_partial_take_profit_levels :
    Decimal → Decimal → Direction → List PartialTakeProfitLevel → List Decimal
compute_partial_take_profit_levels entry final d [] = []
compute_partial_take_profit_levels entry final d (level ∷ levels) =
    level_price d entry final level ∷ compute_partial_take_profit_levels entry final d levels

-- A share of the original quantity, rounded down to 8 digits; the last partial takes what remains.
unfoldable pub partial_close_quantity : Decimal → Decimal → ℕ → ℕ → Decimal
partial_close_quantity original remaining taken total =
    if leb total (taken + 1)
    then remaining
    else minimum (quantize_by round_down 8 (quotient original (whole total))) remaining
