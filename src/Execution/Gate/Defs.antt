-- ===== src/Execution/Gate/Defs.antt =====
-- The ladder of tests that a signal passes before an order, in the order of the source.
use divap_trader.Base.{
  String, Bool, false, ◌&&◌, Option, none, some, List, [], ◌∷◌, if◌then◌else◌, str_eq, not, text_in,
}
use divap_trader.Decimals.{Decimal, lt}
use divap_trader.Market.{Candle, is_high, DivapSignal, MarketContext, is_confirm, is_reject}
use divap_trader.Profiles.Models.{ProfileExecution, TradingProfile}
use divap_trader.Profiles.ExitPolicy.{resolve_take_profit}
use divap_trader.Profiles.Contrarian.{Alignment, aligned, type_error, contrarian_setup_aligned}
use divap_trader.Execution.Risk.{risk_reward_ratio, effective_min_risk_reward}

pub record Settings : Type 0 where
  pub trading_enabled : Bool
  pub trading_mode : String
  pub binance_use_testnet : Bool

pub data Denial : Type 0 where
  trading_disabled testnet_required live_mode_requires_production_keys : Denial
  confidence_below_threshold timeframe_not_allowed_for_profile : Denial
  context_reject monthly_goal_protected no_targets : Denial
  rr_below_minimum : Decimal → Denial
  not_aligned : Alignment → Denial

-- The pair that the gate returns, or an exception.
pub data Decision : Type 0 where
  allowed raised : Decision
  denied : Denial → Decision

unfoldable pub first_target : List Decimal → Option Decimal
first_target [] = none
first_target (t ∷ ts) = some t

unfoldable pub take_profit_for :
    DivapSignal → Option TradingProfile → Option (List Candle) → Option Decimal
unfolding first_target
take_profit_for signal none candles = first_target signal.targets
take_profit_for signal (some profile) candles = resolve_take_profit signal profile candles

-- A context that is there has the property.
abbrev pub context_is : (MarketContext → Bool) → Option MarketContext → Bool
context_is p none = false
context_is p (some c) = p c

abbrev pub is_tasso : Option TradingProfile → Bool
is_tasso none = false
is_tasso (some profile) = str_eq profile.kind "tasso"

abbrev pub is_anti_divap : Option TradingProfile → Bool
is_anti_divap none = false
is_anti_divap (some profile) = str_eq profile.id "anti_divap"

unfoldable pub decide_alignment : Alignment → Decision
decide_alignment aligned = allowed
decide_alignment type_error = raised
decide_alignment a = denied (not_aligned a)

unfoldable pub decide_reward :
    DivapSignal
    → Option MarketContext
    → ProfileExecution
    → Option TradingProfile
    → Option Decimal
    → Decision
decide_reward signal context exec profile none = denied no_targets
decide_reward signal context exec profile (some take_profit) =
    let rr = risk_reward_ratio signal.entry_price signal.stop_price take_profit in
    if lt rr (
      effective_min_risk_reward signal.timeframe exec.min_risk_reward
        exec.min_risk_reward_by_timeframe)
    then denied (rr_below_minimum rr)
    else if is_anti_divap profile
    then decide_alignment (contrarian_setup_aligned signal context)
    else allowed

-- The tests that turn on the profile. A signal's confidence is medium or high, so a minimum of medium
-- refuses none.
unfoldable pub decide_profile :
    DivapSignal
    → Option MarketContext
    → ProfileExecution
    → Bool
    → Option TradingProfile
    → Option (List Candle)
    → Decision
decide_profile signal context exec goal_protected profile candles =
    if str_eq exec.min_confidence "high" && not (is_high signal.confidence)
    then denied confidence_below_threshold
    else if not (text_in signal.timeframe exec.allowed_timeframes)
    then denied timeframe_not_allowed_for_profile
    else if exec.block_on_reject && context_is (λ c. is_reject c.context_verdict) context
    then denied context_reject
    else if goal_protected && not (is_high signal.confidence)
    then denied monthly_goal_protected
    else if goal_protected && context_is (λ c. not (is_confirm c.context_verdict)) context
    then denied monthly_goal_protected
    else decide_reward signal context exec profile (take_profit_for signal profile candles)

-- The execution profile that is given with its protection flag, or else the active one of the bankroll.
abbrev pub profile_or_active :
    Option ProfileExecution → Bool → ProfileExecution × Bool → ProfileExecution × Bool
profile_or_active none goal_protected active = active
profile_or_active (some exec) goal_protected active = (exec, goal_protected)

-- `active` is what get_active_execution_profile of src/bankroll/execution_context.py returns.
unfoldable pub should_execute_trade :
    ProfileExecution × Bool
    → DivapSignal
    → Option MarketContext
    → Settings
    → Option ProfileExecution
    → Bool
    → Option TradingProfile
    → Option (List Candle)
    → Decision
should_execute_trade active signal context cfg execution goal_protected profile candles =
    let (exec, goal) = profile_or_active execution goal_protected active in
    if not cfg.trading_enabled
    then denied trading_disabled
    else if str_eq cfg.trading_mode "testnet" && not cfg.binance_use_testnet
    then denied testnet_required
    else if str_eq cfg.trading_mode "live" && cfg.binance_use_testnet
    then denied live_mode_requires_production_keys
    else if is_tasso profile
    then allowed
    else decide_profile signal context exec goal profile candles
