-- ===== src/Otc/Guard/Limits.antt =====
-- The limits of the stops are positive, so a stop win needs a profit and a stop loss a loss.
use divap_trader.Base.{
  refl, ◌⊎◌, inl, inr, ◌≡◌, Bool, true, false, ◌&&◌, Option, none, some, arith, if◌then◌else◌,
}
use divap_trader.Decimals.{Decimal, ◌⊗◌, negate, is_pos, is_neg, le}
use divap_trader.Decimals.Order.{pos_of_le, neg_of_le-negate, ⊗-pos, hundredth-pos, abs_of_pos}
use divap_trader.Otc.Guard.Defs.{
  StopReason, StopConfig, stop_win, stop_loss, given, value, share, win_block, loss_block,
  decide_stop,
}

share-pos : (b p : Option Decimal) → given b ≡ true → given p ≡ true → is_pos (share b p) ≡ true
share-pos none p g h = cc
share-pos (some b) none g h = cc
share-pos (some b) (some p) g h = hundredth-pos (b ⊗ p) (⊗-pos b p g h)

-- What a stop is measured against: a fixed amount, else a share of the bankroll, else (for a win) the
-- goal of the day; an amount that is missing or not positive does not count.
pub data Limit : Type 0 where
  unlimited : Limit
  at : Decimal → Limit

abbrev or_share : Option Decimal → Option Decimal → Limit → Limit
or_share bankroll pct other = if given pct && given bankroll then at (share bankroll pct) else other

abbrev or_amount : Option Decimal → Limit → Limit
or_amount x other = if given x then at (value x) else other

abbrev pub win_limit : StopConfig → Limit
win_limit c =
    if c.stop_win_enabled
    then or_amount c.stop_win_usd (
        or_share c.initial_bankroll_usd c.daily_stop_win_pct (or_amount c.daily_goal_usd unlimited))
    else unlimited

abbrev pub loss_limit : StopConfig → Limit
loss_limit c =
    if c.stop_loss_enabled
    then or_amount c.stop_loss_usd (or_share c.initial_bankroll_usd c.daily_stop_loss_pct unlimited)
    else unlimited

abbrev pub reaches : Decimal → Limit → Bool
reaches pnl unlimited = false
reaches pnl (at l) = le l pnl

abbrev pub falls_to : Decimal → Limit → Bool
falls_to pnl unlimited = false
falls_to pnl (at l) = le pnl (negate l)

win_block_lem : (pnl : Decimal) (c : StopConfig) → win_block pnl c ≡ reaches pnl (win_limit c)
unfolding win_block
win_block_lem pnl c = ground arith

loss_block_lem : (pnl : Decimal) (c : StopConfig) → loss_block pnl c ≡ falls_to pnl (loss_limit c)
unfolding loss_block
loss_block_lem pnl c = ground (
  arith,
  share-pos c.initial_bankroll_usd c.daily_stop_loss_pct,
  abs_of_pos (share c.initial_bankroll_usd c.daily_stop_loss_pct),
)

-- The day is stopped for a win exactly when its result reaches the win limit, for a loss exactly when it
-- does not and falls to the opposite of the loss limit, and otherwise goes on.
pub decide_stop_lem :
    (pnl : Decimal) (c : StopConfig)
    → decide_stop pnl c ≡ (
        if reaches pnl (win_limit c)
        then some stop_win
        else if falls_to pnl (loss_limit c)
        then some stop_loss
        else none)
unfolding decide_stop
decide_stop_lem pnl c = rw (win_block_lem, loss_block_lem)

given-pos : (x : Option Decimal) → given x ≡ true → is_pos (value x) ≡ true
given-pos none h = cc
given-pos (some x) h = h

win_block-pos : (pnl : Decimal) (c : StopConfig) → win_block pnl c ≡ true → is_pos pnl ≡ true
unfolding win_block
win_block-pos pnl c h =
    let fixed_limit = given-pos c.stop_win_usd in
    let shared = share-pos c.initial_bankroll_usd c.daily_stop_win_pct in
    let goal = given-pos c.daily_goal_usd in
    ground (
      arith,
      fixed_limit,
      shared,
      goal,
      pos_of_le (value c.stop_win_usd) pnl,
      pos_of_le (share c.initial_bankroll_usd c.daily_stop_win_pct) pnl,
      pos_of_le (value c.daily_goal_usd) pnl,
    )

loss_block-neg : (pnl : Decimal) (c : StopConfig) → loss_block pnl c ≡ true → is_neg pnl ≡ true
unfolding loss_block
loss_block-neg pnl c h =
    let shared = share c.initial_bankroll_usd c.daily_stop_loss_pct in
    ground (
      arith,
      given-pos c.stop_loss_usd,
      share-pos c.initial_bankroll_usd c.daily_stop_loss_pct,
      abs_of_pos shared,
      neg_of_le-negate (value c.stop_loss_usd) pnl,
      neg_of_le-negate shared pnl,
    )

stop_win_only :
    (w l : Bool)
    → (if w then some stop_win else if l then some stop_loss else none) ≡ some stop_win
    → w ≡ true
stop_win_only w l h = ground arith

stop_loss_only :
    (w l : Bool)
    → (if w then some stop_win else if l then some stop_loss else none) ≡ some stop_loss
    → l ≡ true
stop_loss_only w l h = ground arith

stop_cases : (o : Option StopReason) → (o ≡ none) ⊎ (o ≡ some stop_win) ⊎ (o ≡ some stop_loss)
stop_cases none = inl refl
stop_cases (some stop_win) = inr (inl refl)
stop_cases (some stop_loss) = inr (inr refl)

-- A stop win is called only on a day with a profit, a stop loss only on a day with a loss.
pub decide_stop_sign :
    (pnl : Decimal) (c : StopConfig)
    → (decide_stop pnl c ≡ none)
      ⊎ ((decide_stop pnl c ≡ some stop_win) × (is_pos pnl ≡ true))
      ⊎ ((decide_stop pnl c ≡ some stop_loss) × (is_neg pnl ≡ true))
unfolding decide_stop
decide_stop_sign pnl c = elim (stop_cases (decide_stop pnl c)) [
  | inl e ↦ inl e
  | inr (inl e) ↦ inr (inl (e, win_block-pos pnl c (stop_win_only _ _ e)))
  | inr (inr e) ↦ inr (inr (e, loss_block-neg pnl c (stop_loss_only _ _ e)))
]
