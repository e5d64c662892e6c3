-- ===== src/Context/Verdicts.antt =====
-- The verdict is a function of the score, and a confirmation needs the higher time frames.
use divap_trader.Base.{
  ℕ, ◌+◌, ◌*◌, ◌≤◌, ◌≡◌, ◌⊎◌, ◌↔◌, inl, inr, Bool, String, Option, none, some, List, [], ◌∷◌, arith,
  Bool-cases,
}
use divap_trader.Base.Int.{ℤ, pos, ◌+ℤ◌, ◌≤ℤ◌, ◌<ℤ◌, int_laws}
use divap_trader.Decimals.{Decimal}
use divap_trader.Data.Trades.{Direction, buy, sell, other}
use divap_trader.Market.{
  TrendBias, bullish, bearish, confirm, caution, reject, FearGreedReading, trend_of,
}
use divap_trader.Context.Scoring.{
  Assessment, NewsHeadline, MacroIndexSnapshot, MarketContextParts, fear_greed_step,
  market_cap_step, apply_htf_alignment, ltf_step, news_step, dollar_step, dollar_of, clamp_score,
  score_to_verdict, is_ltf, raw_assessment, assess_market_context, is_negative,
}

-- What the sentiment or the market can add for a direction at most.
abbrev bonus : Direction → ℕ
bonus buy = 5
bonus _ = 0

abbrev alignment_bonus : Direction → TrendBias → ℕ
alignment_bonus buy bullish = 8
alignment_bonus sell bearish = 8
alignment_bonus _ _ = 0

-- `a` gains at most k over `b`.
abbrev Gains : Assessment → Assessment → ℕ → Type 0
Gains b a k = b.score ≤ℤ a.score +ℤ pos k

fear_greed_step-Gains :
    (d : Direction) (r : Option FearGreedReading) (a : Assessment)
    → Gains (fear_greed_step d r a) a (bonus d)
unfolding fear_greed_step
fear_greed_step-Gains buy none a = omega int_laws
fear_greed_step-Gains sell none a = omega int_laws
fear_greed_step-Gains (other x) none a = omega int_laws
fear_greed_step-Gains buy (some r) a = grind int_laws
fear_greed_step-Gains sell (some r) a = grind int_laws
fear_greed_step-Gains (other x) (some r) a = grind int_laws

market_cap_step-Gains :
    (d : Direction) (c : Option Decimal) (a : Assessment)
    → Gains (market_cap_step d c a) a (bonus d)
unfolding market_cap_step
market_cap_step-Gains buy none a = omega int_laws
market_cap_step-Gains sell none a = omega int_laws
market_cap_step-Gains (other x) none a = omega int_laws
market_cap_step-Gains buy (some c) a = grind int_laws
market_cap_step-Gains sell (some c) a = grind int_laws
market_cap_step-Gains (other x) (some c) a = grind int_laws

apply_htf_alignment-Gains :
    (d : Direction) (t : TrendBias) (label : String) (a : Assessment)
    → Gains (apply_htf_alignment d t label a) a (alignment_bonus d t)
unfolding apply_htf_alignment
apply_htf_alignment-Gains buy t label a = grind int_laws
apply_htf_alignment-Gains sell t label a = grind int_laws
apply_htf_alignment-Gains (other x) t label a = grind int_laws

ltf_step-Gains :
    (ltf : Bool) (d : Direction) (t : TrendBias) (a : Assessment) → Gains (ltf_step ltf d t a) a 0
unfolding ltf_step
ltf_step-Gains ltf d t a = grind int_laws

news_step-Gains : (hs : List NewsHeadline) (a : Assessment) → Gains (news_step hs a) a 0
unfolding news_step
news_step-Gains [] a = omega int_laws
news_step-Gains (h ∷ hs) a = elim (Bool-cases (is_negative h)) [
  | inl e ↦ rw e (omega int_laws)
  | inr e ↦ rw e (news_step-Gains hs a)
]

dollar_step-Gains :
    (d : Direction) (m : Option MacroIndexSnapshot) (a : Assessment) → Gains (dollar_step d m a) a 0
unfolding dollar_step
dollar_step-Gains d none a = omega int_laws
dollar_step-Gains d (some m) a = grind int_laws

-- The most that a direction can score under two trends.
raw_assessment-le :
    (timeframe : String) (d : Direction) (parts : MarketContextParts)
    → let ceiling =
        50
        + 2 * bonus d
        + alignment_bonus d (trend_of "1d" parts.htf_trends)
        + alignment_bonus d (trend_of "1w" parts.htf_trends) in
      (raw_assessment timeframe d parts).score ≤ℤ pos ceiling
unfolding raw_assessment
raw_assessment-le timeframe d parts =
    let htf_1d = trend_of "1d" parts.htf_trends in
    let htf_1w = trend_of "1w" parts.htf_trends in
    let start : Assessment = record { score = pos 50; flags = [] } in
    let sentiment = fear_greed_step d parts.fear_greed start in
    let market = market_cap_step d parts.market_cap_change sentiment in
    let daily = apply_htf_alignment d htf_1d "1d" market in
    let weekly = apply_htf_alignment d htf_1w "1w" daily in
    let short = ltf_step (is_ltf timeframe) d htf_1d weekly in
    let news = news_step parts.news_headlines short in
    omega (
      int_laws,
      fear_greed_step-Gains d parts.fear_greed start,
      market_cap_step-Gains d parts.market_cap_change sentiment,
      apply_htf_alignment-Gains d htf_1d "1d" market,
      apply_htf_alignment-Gains d htf_1w "1w" daily,
      ltf_step-Gains (is_ltf timeframe) d htf_1d weekly,
      news_step-Gains parts.news_headlines short,
      dollar_step-Gains d (dollar_of parts.macro_indices) news,
    )

-- The score lies from 0 to 100, and the verdict is confirm from 65, caution from 45 and reject below; it is
-- never unknown.
pub assess_market_context_thresholds :
    (timeframe : String) (d : Direction) (parts : MarketContextParts)
    → let (score, verdict, flags) = assess_market_context timeframe d parts in
      (pos 0 ≤ℤ score)
      × (score ≤ℤ pos 100)
      × ((verdict ≡ confirm) ↔ (pos 65 ≤ℤ score))
      × ((verdict ≡ caution) ↔ ((pos 45 ≤ℤ score) × (score <ℤ pos 65)))
      × ((verdict ≡ reject) ↔ (score <ℤ pos 45))
unfolding assess_market_context clamp_score score_to_verdict
assess_market_context_thresholds timeframe d parts = ground arith

clamp_score-ge : (s : ℤ) (k : ℕ) → pos 65 ≤ℤ clamp_score s → s ≤ℤ pos k → 65 ≤ k
unfolding clamp_score
clamp_score-ge s k h l = ground arith

aligned :
    (d : Direction) (daily weekly : TrendBias)
    → 65 ≤ 50 + 2 * bonus d + alignment_bonus d daily + alignment_bonus d weekly
    → ((d ≡ buy) × ((daily ≡ bullish) ⊎ (weekly ≡ bullish)))
      ⊎ ((d ≡ sell) × (daily ≡ bearish) × (weekly ≡ bearish))
aligned buy daily weekly h = ground arith
aligned sell daily weekly h = ground arith
aligned (other x) daily weekly h = absurd (ground arith)

-- A context is confirmed only with the higher time frames: for a purchase the daily or the weekly trend is
-- bullish, for a sale both are bearish.
pub assess_market_context_confirms :
    (timeframe : String) (d : Direction) (parts : MarketContextParts)
    → (assess_market_context timeframe d parts).1 ≡ confirm
    → let daily = trend_of "1d" parts.htf_trends in
      let weekly = trend_of "1w" parts.htf_trends in
      ((d ≡ buy) × ((daily ≡ bullish) ⊎ (weekly ≡ bullish)))
      ⊎ ((d ≡ sell) × (daily ≡ bearish) × (weekly ≡ bearish))
unfolding assess_market_context
assess_market_context_confirms timeframe d parts h = aligned d _ _ (
    clamp_score-ge (raw_assessment timeframe d parts).score _
      ((assess_market_context_thresholds timeframe d parts).2.0 h)
      (raw_assessment-le timeframe d parts))
