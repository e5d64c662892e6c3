-- ===== src/Otc/Stake/Defs.antt =====
-- The functions of src/otc/stake.py. The texts that the panel shows of a profile are left out.
use divap_trader.Base.{
  String, Option, none, some, List, [], ◌∷◌, if◌then◌else◌, str_eq, text_in, option_or,
}
use divap_trader.Decimals.{
  Decimal, whole, fixed, to_cents, ◌⊗◌, hundredth, minimum, maximum, is_pos,
}

abbrev pub valid_risk_profiles : List String
valid_risk_profiles = "conservative" ∷ "moderate" ∷ "aggressive" ∷ []

abbrev pub default_risk_profile : String
default_risk_profile = "moderate"

-- The multiple of the first stake that a full losing cycle costs: 8.04
abbrev pub martingale_cycle_multiplier : Decimal
martingale_cycle_multiplier = fixed 804 2

-- The numbers of an entry of RISK_PROFILES.
pub record RiskProfile : Type 0 where
  pub stake_pct : Decimal
  pub daily_stop_loss_pct : Decimal
  pub daily_stop_win_pct : Decimal
  pub pct_min : Decimal
  pub pct_max : Decimal

abbrev pub conservative : RiskProfile
conservative = record {
  stake_pct = fixed 75 2;
  daily_stop_loss_pct = fixed 20 1;
  daily_stop_win_pct = fixed 12 1;
  pct_min = fixed 5 1;
  pct_max = whole 1;
}

abbrev pub moderate : RiskProfile
moderate = record {
  stake_pct = fixed 15 1;
  daily_stop_loss_pct = fixed 30 1;
  daily_stop_win_pct = fixed 20 1;
  pct_min = whole 1;
  pct_max = whole 2;
}

abbrev pub aggressive : RiskProfile
aggressive = record {
  stake_pct = fixed 25 1;
  daily_stop_loss_pct = fixed 50 1;
  daily_stop_win_pct = fixed 35 1;
  pct_min = whole 2;
  pct_max = whole 3;
}

-- RISK_PROFILES[key], for a key that `normalize_risk_profile` gives.
unfoldable pub risk_profiles : String → RiskProfile
risk_profiles key =
    if str_eq key "conservative"
    then conservative
    else if str_eq key "aggressive"
    then aggressive
    else moderate

-- The text after `.strip().lower()`, which Python's library computes, is what a value arrives as.
unfoldable pub normalize_risk_profile : Option String → String
normalize_risk_profile value =
    let profile = option_or value "" in
    if text_in profile valid_risk_profiles then profile else default_risk_profile

unfoldable pub stake_pct_for_profile : String → Decimal
unfolding normalize_risk_profile risk_profiles
stake_pct_for_profile profile = (risk_profiles (normalize_risk_profile (some profile))).stake_pct

-- (stop_win_pct, stop_loss_pct)
unfoldable pub stop_pcts_for_profile : String → Decimal × Decimal
unfolding normalize_risk_profile risk_profiles
stop_pcts_for_profile profile =
    let meta = risk_profiles (normalize_risk_profile (some profile)) in
    (meta.daily_stop_win_pct, meta.daily_stop_loss_pct)

unfoldable pub worst_cycle_loss_pct : Decimal → Decimal
worst_cycle_loss_pct stake_pct = to_cents (stake_pct ⊗ martingale_cycle_multiplier)

pub record ProfileLimits : Type 0 where
  pub stake_pct : Decimal
  pub daily_stop_win_pct : Decimal
  pub daily_stop_loss_pct : Decimal
  pub worst_cycle_pct : Decimal

unfoldable pub resolve_profile_limits : String → ProfileLimits
unfolding normalize_risk_profile risk_profiles worst_cycle_loss_pct
resolve_profile_limits profile =
    let meta = risk_profiles (normalize_risk_profile (some profile)) in
    record {
      stake_pct = meta.stake_pct;
      daily_stop_win_pct = meta.daily_stop_win_pct;
      daily_stop_loss_pct = meta.daily_stop_loss_pct;
      worst_cycle_pct = worst_cycle_loss_pct meta.stake_pct;
    }

unfoldable pub stake_max_usd_for_profile : Decimal → String → Decimal
unfolding normalize_risk_profile risk_profiles
stake_max_usd_for_profile balance profile =
    let meta = risk_profiles (normalize_risk_profile (some profile)) in
    to_cents (hundredth (balance ⊗ meta.pct_max))

-- `x if x and x > 0 else d`
abbrev pub positive_or : Option Decimal → Decimal → Decimal
positive_or none d = d
positive_or (some x) d = if is_pos x then x else d

-- The balance and the two limits that the source takes too are never read.
unfoldable pub resolve_stake_from_settings : Option String → Option Decimal → Decimal × String
unfolding normalize_risk_profile stake_pct_for_profile
resolve_stake_from_settings stake_risk_profile stake_pct =
    let profile = normalize_risk_profile stake_risk_profile in
    (positive_or stake_pct (stake_pct_for_profile profile), profile)

-- The source raises ValueError for a balance that is not positive.
unfoldable pub resolve_daily_base_stake : Decimal → Decimal → Decimal → Decimal → Option Decimal
resolve_daily_base_stake balance stake_pct stake_min stake_max =
    let raw = hundredth (balance ⊗ stake_pct) in
    if is_pos balance then some (to_cents (maximum stake_min (minimum stake_max raw))) else none

pub record SessionLimits : Type 0 where
  pub reference_balance_usd : Decimal
  pub base_stake_usd : Decimal
  pub stop_win_usd : Decimal
  pub stop_loss_usd : Decimal

unfoldable pub compute_session_limits :
    Decimal → Decimal → Decimal → Decimal → Decimal → Decimal → Option SessionLimits
unfolding resolve_daily_base_stake
compute_session_limits balance stake_pct stake_min stake_max win_pct loss_pct =
    elim (resolve_daily_base_stake balance stake_pct stake_min stake_max) [
      | none ↦ none
      | some base ↦ some (record {
        reference_balance_usd = balance;
        base_stake_usd = base;
        stop_win_usd = to_cents (hundredth (balance ⊗ win_pct));
        stop_loss_usd = to_cents (hundredth (balance ⊗ loss_pct));
      })
    ]
