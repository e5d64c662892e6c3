-- ===== src/Profiles/Contrarian.antt =====
-- The alignment rule of the Anti-DIVAP profile (src/profiles/contrarian.py). The rule compares the
-- context's reading of the fear and greed index, a record, with a number, which raises a TypeError.
use divap_trader.Base.{Bool, ◌||◌, ◌≡◌, Option, none, some, if◌then◌else◌, arith}
use divap_trader.Data.Trades.{Direction, buy, sell, other}
use divap_trader.Market.{
  DivapSignal, MarketContext, FearGreedReading, is_bearish, is_bullish, trend_of,
}

pub data Alignment : Type 0 where
  aligned no_context buy_requires_fear_or_htf_bearish : Alignment
  sell_requires_greed_or_htf_bullish unknown_direction type_error : Alignment

-- `fg is not None and fg <= FEAR_THRESHOLD`, then the test of the trends.
unfoldable pub reading_or : Option FearGreedReading → Bool → Alignment → Alignment
reading_or none exhaustion_ok refusal = if exhaustion_ok then aligned else refusal
reading_or (some reading) exhaustion_ok refusal = type_error

unfoldable pub aligned_in : Direction → MarketContext → Alignment
unfolding reading_or trend_of
aligned_in buy c =
    reading_or c.fear_greed
      (is_bearish (trend_of "1d" c.htf_trends) || is_bearish (trend_of "1w" c.htf_trends))
      buy_requires_fear_or_htf_bearish
aligned_in sell c =
    reading_or c.fear_greed
      (is_bullish (trend_of "1d" c.htf_trends) || is_bullish (trend_of "1w" c.htf_trends))
      sell_requires_greed_or_htf_bullish
aligned_in (other d) c = unknown_direction

unfoldable pub contrarian_setup_aligned : DivapSignal → Option MarketContext → Alignment
unfolding aligned_in
contrarian_setup_aligned signal none = no_context
contrarian_setup_aligned signal (some c) = aligned_in signal.direction c

pub aligned-no_reading :
    (signal : DivapSignal) (c : MarketContext)
    → contrarian_setup_aligned signal (some c) ≡ aligned
    → c.fear_greed ≡ none
unfolding contrarian_setup_aligned
aligned-no_reading signal c h = ground arith
