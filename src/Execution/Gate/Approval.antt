-- ===== src/Execution/Gate/Approval.antt =====
-- What an approval guarantees.
use divap_trader.Base.{
  Bool, true, false, ◌≡◌, ◌≢◌, refl, Option, none, some, List, arith, str_eq, text_in, Bool-cases,
  inl, inr, not, sym, ◌∙◌, ◌&&◌, ◌⊎◌,
}
use divap_trader.Decimals.{Decimal, lt}
use divap_trader.Market.{
  Candle, is_high, DivapSignal, MarketContext, FearGreedReading, is_confirm, is_reject,
}
use divap_trader.Profiles.Models.{ProfileExecution, TradingProfile}
use divap_trader.Profiles.Contrarian.{
  Alignment, aligned, contrarian_setup_aligned, aligned-no_reading,
}
use divap_trader.Execution.Risk.{risk_reward_ratio, effective_min_risk_reward}
use divap_trader.Execution.Gate.Defs.{
  Settings, allowed, take_profit_for, context_is, is_tasso, is_anti_divap, decide_alignment,
  decide_reward, decide_profile, should_execute_trade, profile_or_active,
}

-- The take-profit that is used, with a risk/reward ratio that reaches the minimum.
pub record IsWorthwhile (signal : DivapSignal) (exec : ProfileExecution) (take_profit : Decimal)
    : Type 0 where
  reward_reached :
      lt (risk_reward_ratio signal.entry_price signal.stop_price take_profit) (
        effective_min_risk_reward signal.timeframe exec.min_risk_reward
          exec.min_risk_reward_by_timeframe)
      ≡ false

pub record IsSwitchedOn (cfg : Settings) : Type 0 where
  trading_on : cfg.trading_enabled ≡ true
  testnet_keys : (str_eq cfg.trading_mode "testnet" && not cfg.binance_use_testnet) ≡ false
  live_keys : (str_eq cfg.trading_mode "live" && cfg.binance_use_testnet) ≡ false

pub record IsFit (signal : DivapSignal) (context : Option MarketContext) (exec : ProfileExecution)
    (goal : Bool) (profile : Option TradingProfile) (candles : Option (List Candle)) : Type 0 where
  confident : (str_eq exec.min_confidence "high" && not (is_high signal.confidence)) ≡ false
  in_timeframe : text_in signal.timeframe exec.allowed_timeframes ≡ true
  not_rejected :
      (exec.block_on_reject && context_is (λ c. is_reject c.context_verdict) context) ≡ false
  pub protected_confident : (goal && not (is_high signal.confidence)) ≡ false
  pub protected_confirmed :
      (goal && context_is (λ c. not (is_confirm c.context_verdict)) context) ≡ false
  target : Decimal
  target_taken : take_profit_for signal profile candles ≡ some target
  worthwhile : IsWorthwhile signal exec target
  setup_aligned :
      (is_anti_divap profile ≡ false) ⊎ (contrarian_setup_aligned signal context ≡ aligned)

-- An approval means that trading is switched on, and that the keys in use fit the mode: those of the
-- testnet in the mode testnet, those of production in the mode live.
pub should_execute_trade-IsSwitchedOn :
    (active : ProfileExecution × Bool) (signal : DivapSignal) (context : Option MarketContext)
    (cfg : Settings) (execution : Option ProfileExecution) (goal : Bool)
    (profile : Option TradingProfile) (candles : Option (List Candle))
    → should_execute_trade active signal context cfg execution goal profile candles ≡ allowed
    → IsSwitchedOn cfg
unfolding should_execute_trade
should_execute_trade-IsSwitchedOn active signal context cfg execution goal profile candles h =
    record { trading_on = ground arith; testnet_keys = ground arith; live_keys = ground arith }

module _ (signal : DivapSignal) (context : Option MarketContext) (exec : ProfileExecution)
    (profile : Option TradingProfile) where
  aligned_only : (a : Alignment) → decide_alignment a ≡ allowed → a ≡ aligned
  unfolding decide_alignment
  aligned_only a h = ground arith

  reward_target :
      (t : Option Decimal)
      → decide_reward signal context exec profile t ≡ allowed
      → (target : Decimal) × ((t ≡ some target) × IsWorthwhile signal exec target)
  unfolding decide_reward
  reward_target none h = ground arith
  reward_target (some target) h = (target, (refl, record { reward_reached = ground arith }))

  reward_aligned :
      (t : Option Decimal)
      → decide_reward signal context exec profile t ≡ allowed
      → is_anti_divap profile ≡ true
      → contrarian_setup_aligned signal context ≡ aligned
  unfolding decide_reward
  reward_aligned none h e = ground arith
  reward_aligned (some target) h e =
      ground (arith, aligned_only (contrarian_setup_aligned signal context))

  module _ (goal : Bool) (candles : Option (List Candle)) where
    profile-reward :
        decide_profile signal context exec goal profile candles ≡ allowed
        → decide_reward signal context exec profile (take_profit_for signal profile candles)
          ≡ allowed
    unfolding decide_profile
    profile-reward h = ground arith

    profile-IsFit :
        decide_profile signal context exec goal profile candles ≡ allowed
        → IsFit signal context exec goal profile candles
    unfolding decide_profile
    profile-IsFit h =
        let reward = profile-reward h in
        let (target, (taken, worthwhile)) = reward_target _ reward in
        record {
          confident = ground arith;
          in_timeframe = ground arith;
          not_rejected = ground arith;
          protected_confident = ground arith;
          protected_confirmed = ground arith;
          target = target;
          target_taken = taken;
          worthwhile = worthwhile;
          setup_aligned = elim (Bool-cases (is_anti_divap profile)) [
            | inl e ↦ inr (reward_aligned _ reward e)
            | inr e ↦ inl e
          ];
        }

module _ (active : ProfileExecution × Bool) (signal : DivapSignal) (context : Option MarketContext)
    (cfg : Settings) (execution : Option ProfileExecution) (goal : Bool)
    (profile : Option TradingProfile) (candles : Option (List Candle)) where
  decide_not_tasso :
      is_tasso profile ≡ false
      → should_execute_trade active signal context cfg execution goal profile candles ≡ allowed
      → let given = profile_or_active execution goal active in
        decide_profile signal context given.0 given.1 profile candles ≡ allowed
  unfolding should_execute_trade
  decide_not_tasso e h = ground arith

  -- An approval means, but for a profile of the kind tasso, that the signal fits the execution profile: it
  -- has the confidence and the timeframe, the context does not stand against it, a protected goal has its
  -- higher bar met, the risk/reward ratio of the take-profit in use reaches the minimum, and the Anti-DIVAP
  -- rule, where it applies, is met.
  pub should_execute_trade-IsFit :
      is_tasso profile ≡ false
      → should_execute_trade active signal context cfg execution goal profile candles ≡ allowed
      → let given = profile_or_active execution goal active in
        IsFit signal context given.0 given.1 profile candles
  should_execute_trade-IsFit e h =
      profile-IsFit signal context _ profile _ candles (decide_not_tasso e h)

none≢some : (reading : FearGreedReading) → none ≢ some reading
none≢some reading h = ground arith

right_of : {A : Type 0} (b : Bool) → (b ≡ false) ⊎ A → b ≡ true → A
right_of true (inr a) e = a
right_of true (inl n) e = ground arith
right_of false h e = ground arith

-- The gate approves no signal for the Anti-DIVAP profile, if that is not of the kind tasso, in a context
-- that has a fear and greed reading, whatever the reading.
pub should_execute_trade-anti_divap :
    (active : ProfileExecution × Bool) (signal : DivapSignal) (c : MarketContext)
    (reading : FearGreedReading) (cfg : Settings) (execution : Option ProfileExecution)
    (goal : Bool) (profile : TradingProfile) (candles : Option (List Candle))
    → str_eq profile.id "anti_divap" ≡ true
    → str_eq profile.kind "tasso" ≡ false
    → c.fear_greed ≡ some reading
    → should_execute_trade active signal (some c) cfg execution goal (some profile) candles
      ≢ allowed
should_execute_trade-anti_divap active signal c reading cfg execution goal profile candles anti kind
      e h =
    let fit =
      should_execute_trade-IsFit active signal (some c) cfg execution goal (some profile) candles
        kind h in
    let met = right_of (str_eq profile.id "anti_divap") fit.setup_aligned anti in
    none≢some reading (sym (aligned-no_reading signal c met) ∙ e)
