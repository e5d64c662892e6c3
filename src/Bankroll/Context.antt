-- ===== src/Bankroll/Context.antt =====
-- src/bankroll/execution_context.py, and protected_execution_profile of src/profiles/loader.py. The
-- profiles are YAML files, so load_profile is an argument.
use divap_trader.Base.{String, Bool, true, false, Option, none, some, List, [], ◌∷◌, is_some}
use divap_trader.Base.Int.{pos}
use divap_trader.Decimals.{Decimal, fixed}
use divap_trader.Data.Trades.{Instant}
use divap_trader.Profiles.Models.{ProfileExecution, TradingProfile}
use divap_trader.Bankroll.Settings.{Bankroll, BankrollRecord, get_settings, text_or}

-- The dictionary `meta`; a key protected_mode that is missing is read as False.
pub record Meta : Type 0 where
  pub active_profile_id : String
  pub active_profile_ids : List String
  pub goal_reached : Bool
  pub goal_reached_at : Option Instant
  pub protected_mode : Bool

unfoldable pub protected_profile : Decimal → List String → ProfileExecution
protected_profile min_rr timeframes = record {
  min_confidence = "high";
  block_on_reject = true;
  min_risk_reward = min_rr;
  max_open_trades = pos 1;
  allowed_timeframes = timeframes;
  allocation_multiplier = fixed 35 2;
  min_risk_reward_by_timeframe = [];
}

-- `base` is load_profile("conservador").
unfoldable pub protected_execution_profile : Option TradingProfile → ProfileExecution
unfolding protected_profile
protected_execution_profile none = protected_profile (fixed 25 1) ("4h" ∷ "1d" ∷ [])
protected_execution_profile (some base) =
    protected_profile base.execution.min_risk_reward base.execution.allowed_timeframes

abbrev pub or_else : Option TradingProfile → Option TradingProfile → Option TradingProfile
or_else none other = other
or_else (some profile) other = some profile

unfoldable pub meta_of : String → BankrollRecord → Bool → Meta
meta_of profile_id current protected = record {
  active_profile_id = profile_id;
  active_profile_ids = current.active_profile_ids;
  goal_reached = is_some current.goal_reached_at;
  goal_reached_at = current.goal_reached_at;
  protected_mode = protected;
}

abbrev pub Selection : Type 0
Selection = Option TradingProfile × (ProfileExecution × Meta)

module _ (load_profile : String → Option TradingProfile) where
  unfoldable pub select_profile :
      String → BankrollRecord → Option TradingProfile → Option Instant → Selection
  unfolding protected_execution_profile protected_profile meta_of
  select_profile profile_id current none reached = (
    none,
    (protected_execution_profile (load_profile "conservador"), meta_of profile_id current false),
  )
  select_profile profile_id current (some profile) (some at) = (
    some profile,
    (
      protected_profile profile.execution.min_risk_reward profile.execution.allowed_timeframes,
      meta_of profile_id current true,
    ),
  )
  select_profile profile_id current (some profile) none =
      (some profile, (profile.execution, meta_of profile_id current false))

  unfoldable pub get_execution_profile_for : String → String → Bankroll → Selection × Bankroll
  unfolding get_settings select_profile
  get_execution_profile_for profile_id period db =
      let (current, stored) = get_settings period db in
      (
        select_profile profile_id current (or_else (load_profile profile_id) (load_profile "divap"))
            current.goal_reached_at,
        stored,
      )

  -- The month is read at each call for the settings, here once and below once more.
  unfoldable pub get_active_execution_profile : String → String → Bankroll → Selection × Bankroll
  unfolding get_execution_profile_for
  get_active_execution_profile period period_later db =
      let (current, stored) = get_settings period db in
      get_execution_profile_for current.active_profile_id period_later stored

  unfoldable pub get_execution_context :
      Option String → String → String → Bankroll → (String × Bool) × Bankroll
  unfolding get_execution_profile_for
  get_execution_context profile_id period period_later db =
      let (current, stored) = get_settings period db in
      let effective = text_or profile_id current.active_profile_id in
      let ((profile, (execution, meta)), later) =
        get_execution_profile_for effective period_later stored in
      ((effective, meta.protected_mode), later)
