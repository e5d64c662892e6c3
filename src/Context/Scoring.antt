-- ===== src/Context/Scoring.antt =====
-- `assess_market_context` step by step. A float's value is a decimal, so percentages are decimals here.
use text.Mathlib.Text.{find?}
use divap_trader.Base.{
  ℕ, zero, suc, String, Bool, true, false, ◌&&◌, Option, none, some, List, [], ◌∷◌, ◌++◌, is_some,
  any, if◌then◌else◌, str_eq, text_in,
}
use divap_trader.Base.Int.{ℤ, pos, negsuc, ◌+ℤ◌, ◌-ℤ◌, leb_ℤ, ltb_ℤ}
use divap_trader.Decimals.{Decimal, whole, le, negate}
use divap_trader.Data.Trades.{Direction, buy, sell, is_buy}
use divap_trader.Market.{
  TrendBias, bullish, bearish, is_bullish, is_bearish, ContextVerdict, confirm, caution, reject,
  FearGreedReading, trend_of,
}

pub data Flag : Type 0 where
  extreme_fear fear extreme_greed greed : Flag
  crypto_market_selloff_24h crypto_market_rally_24h : Flag
  htf_aligned_bullish htf_aligned_bearish htf_conflict_bearish htf_conflict_bullish : String → Flag
  ltf_buy_vs_htf_bearish ltf_sell_vs_htf_bullish : Flag
  negative_news : String → Flag
  strong_dollar_headwind : Flag

pub record NewsHeadline : Type 0 where
  pub title : String
  -- title.lower()
  pub lower_title : String

pub record MacroIndexSnapshot : Type 0 where
  pub symbol : String
  pub trend : TrendBias

pub record MarketContextParts : Type 0 where
  pub fear_greed : Option FearGreedReading
  -- global_market.market_cap_change_24h_pct, where both are there
  pub market_cap_change : Option Decimal
  pub htf_trends : List (String × TrendBias)
  pub macro_indices : List MacroIndexSnapshot
  pub news_headlines : List NewsHeadline

-- The score and the flags so far.
pub record Assessment : Type 0 where
  pub score : ℤ
  pub flags : List Flag

abbrev is_sell : Direction → Bool
is_sell sell = true
is_sell _ = false

unfoldable pub flagged : Flag → ℤ → Assessment → Assessment
flagged f delta a = record { score = a.score +ℤ delta; flags = a.flags ++ f ∷ [] }

unfoldable pub lowered : Flag → ℤ → Assessment → Assessment
lowered f delta a = record { score = a.score -ℤ delta; flags = a.flags ++ f ∷ [] }

unfoldable pub fear_greed_step : Direction → Option FearGreedReading → Assessment → Assessment
unfolding flagged lowered
fear_greed_step d none a = a
fear_greed_step d (some reading) a =
    if leb_ℤ reading.value (pos 20)
    then flagged extreme_fear (if is_buy d then pos 5 else negsuc 9) a
    else if leb_ℤ reading.value (pos 35)
    then flagged fear (if is_buy d then pos 3 else negsuc 4) a
    else if leb_ℤ (pos 80) reading.value
    then lowered extreme_greed (if is_buy d then pos 15 else pos 5) a
    else if leb_ℤ (pos 65) reading.value
    then lowered greed (if is_buy d then pos 8 else pos 3) a
    else a

unfoldable pub market_cap_step : Direction → Option Decimal → Assessment → Assessment
unfolding flagged lowered
market_cap_step d none a = a
market_cap_step d (some change) a =
    if le change (negate (whole 3))
    then lowered crypto_market_selloff_24h (pos 10) a
    else if le (whole 3) change
    then flagged crypto_market_rally_24h (if is_buy d then pos 5 else negsuc 2) a
    else a

-- `_apply_htf_alignment`
unfoldable pub apply_htf_alignment : Direction → TrendBias → String → Assessment → Assessment
unfolding flagged lowered
apply_htf_alignment buy bullish label a = flagged (htf_aligned_bullish label) (pos 8) a
apply_htf_alignment sell bearish label a = flagged (htf_aligned_bearish label) (pos 8) a
apply_htf_alignment buy bearish label a = lowered (htf_conflict_bearish label) (pos 10) a
apply_htf_alignment sell bullish label a = lowered (htf_conflict_bullish label) (pos 10) a
apply_htf_alignment _ _ label a = a

abbrev pub ltf_timeframes : List String
ltf_timeframes = "1m" ∷ "5m" ∷ "15m" ∷ "1h" ∷ []

-- `is_ltf` of src/core/timeframes.py
unfoldable pub is_ltf : String → Bool
is_ltf timeframe = text_in timeframe ltf_timeframes

unfoldable pub ltf_step : Bool → Direction → TrendBias → Assessment → Assessment
unfolding lowered
ltf_step ltf d htf_1d a =
    let b =
      if ltf && is_bearish htf_1d && is_buy d
      then lowered ltf_buy_vs_htf_bearish (pos 12) a
      else a in
    if ltf && is_bullish htf_1d && is_sell d then lowered ltf_sell_vs_htf_bullish (pos 12) b else b

abbrev pub negative_news_keywords : List String
negative_news_keywords =
    "hack" ∷ "exploit" ∷ "ban" ∷ "lawsuit" ∷ "sec " ∷ "crash" ∷ "collapse" ∷ "bankrupt" ∷ "fraud"
    ∷ "sanction" ∷ "war" ∷ "emergency" ∷ []

unfoldable pub is_negative : NewsHeadline → Bool
is_negative h = any (λ keyword. is_some (find? h.lower_title keyword)) negative_news_keywords

-- title[:n]
unfoldable pub first_chars : ℕ → String → String
first_chars zero s = ""
first_chars (suc n) String.[] = ""
first_chars (suc n) (String.◌∷◌ c s) = String.◌∷◌ c (first_chars n s)

-- The first headline with a keyword counts, and the loop breaks.
unfoldable pub news_step : List NewsHeadline → Assessment → Assessment
unfolding lowered is_negative first_chars
news_step [] a = a
news_step (h ∷ hs) a =
    if is_negative h
    then lowered (negative_news (first_chars 60 h.title)) (pos 8) a
    else news_step hs a

unfoldable pub dollar_of : List MacroIndexSnapshot → Option MacroIndexSnapshot
dollar_of [] = none
dollar_of (m ∷ ms) = if str_eq m.symbol "DX-Y.NYB" then some m else dollar_of ms

unfoldable pub dollar_step : Direction → Option MacroIndexSnapshot → Assessment → Assessment
unfolding lowered
dollar_step d none a = a
dollar_step d (some dxy) a =
    if is_bullish dxy.trend && is_buy d then lowered strong_dollar_headwind (pos 5) a else a

-- max(0, min(100, score))
unfoldable pub clamp_score : ℤ → ℤ
clamp_score s =
    let capped = if ltb_ℤ s (pos 100) then s else pos 100 in
    if ltb_ℤ (pos 0) capped then capped else pos 0

abbrev is_negative_news : Flag → Bool
is_negative_news (negative_news title) = true
is_negative_news _ = false

-- `_score_to_verdict`
unfoldable pub score_to_verdict : ℤ → List Flag → ContextVerdict
score_to_verdict score flags =
    if any is_negative_news flags && ltb_ℤ score (pos 45)
    then reject
    else if leb_ℤ (pos 65) score
    then confirm
    else if leb_ℤ (pos 45) score
    then caution
    else if ltb_ℤ score (pos 45)
    then reject
    else ContextVerdict.unknown

-- The score before it is clamped.
unfoldable pub raw_assessment : String → Direction → MarketContextParts → Assessment
raw_assessment timeframe d parts =
    let htf_1d = trend_of "1d" parts.htf_trends in
    let htf_1w = trend_of "1w" parts.htf_trends in
    let start : Assessment = record { score = pos 50; flags = [] } in
    let sentiment = fear_greed_step d parts.fear_greed start in
    let market = market_cap_step d parts.market_cap_change sentiment in
    let daily = apply_htf_alignment d htf_1d "1d" market in
    let weekly = apply_htf_alignment d htf_1w "1w" daily in
    let short = ltf_step (is_ltf timeframe) d htf_1d weekly in
    let news = news_step parts.news_headlines short in
    dollar_step d (dollar_of parts.macro_indices) news

unfoldable pub assess_market_context :
    String → Direction → MarketContextParts → ℤ × ContextVerdict × List Flag
assess_market_context timeframe d parts =
    let a = raw_assessment timeframe d parts in
    let score = clamp_score a.score in (score, score_to_verdict score a.flags, a.flags)
