-- ===== src/Otc/Stake/Bounds.antt =====
-- The stake of the day lies between the rounded floor and ceiling; the packages of the profiles.
use divap_trader.Base.{
  ◌≡◌, refl, ◌⊎◌, inl, inr, true, Option, some, arith, String, option_or, eq_iff, is_some,
}
use divap_trader.Decimals.{
  Decimal, whole, quantize, to_cents, ◌⊗◌, hundredth, minimum, maximum, is_pos, le, lt,
}
use divap_trader.Decimals.Order.{minimum-le_left, maximum-ge_left, maximum_least}
use divap_trader.Decimals.Rounding.{quantize_mono}
use divap_trader.Otc.Stake.Defs.{
  resolve_daily_base_stake, resolve_profile_limits, normalize_risk_profile,
}

-- Where the floor is not above the ceiling, a stake that comes out lies between the two, both rounded to
-- cents.
pub resolve_daily_base_stake_bounds :
    (balance pct lo hi : Decimal) {s : Decimal}
    → resolve_daily_base_stake balance pct lo hi ≡ some s
    → le lo hi ≡ true
    → (le (to_cents lo) s ≡ true) × (le s (to_cents hi) ≡ true)
unfolding resolve_daily_base_stake
resolve_daily_base_stake_bounds balance pct lo hi h order =
    let raw = hundredth (balance ⊗ pct) in
    ground (
      arith,
      quantize_mono 2 _ _ (maximum-ge_left lo (minimum hi raw)),
      quantize_mono 2 _ _ (maximum_least lo (minimum hi raw) hi order (minimum-le_left hi raw)),
    )

-- The percentage that applies lies in range: with raw between floor and ceiling the stake is exactly the
-- rounded share of the balance.
pub resolve_daily_base_stake_share :
    (balance pct lo hi : Decimal)
    → is_pos balance ≡ true
    → lt lo (hundredth (balance ⊗ pct)) ≡ true
    → lt (hundredth (balance ⊗ pct)) hi ≡ true
    → resolve_daily_base_stake balance pct lo hi ≡ some (to_cents (hundredth (balance ⊗ pct)))
unfolding resolve_daily_base_stake minimum maximum
resolve_daily_base_stake_share balance pct lo hi p q r = ground arith

-- A stake comes out exactly when the balance is positive.
pub resolve_daily_base_stake_total :
    (balance pct lo hi : Decimal)
    → is_some (resolve_daily_base_stake balance pct lo hi) ≡ is_pos balance
unfolding resolve_daily_base_stake
resolve_daily_base_stake_total balance pct lo hi = ground arith

-- What a profile value normalizes to is one of the three.
normalize_risk_profile-cases :
    (p : Option String)
    → (normalize_risk_profile p ≡ "conservative")
      ⊎ (normalize_risk_profile p ≡ "moderate")
      ⊎ (normalize_risk_profile p ≡ "aggressive")
unfolding normalize_risk_profile
normalize_risk_profile-cases p =
    let value = option_or p "" in
    ground (arith, eq_iff value "conservative", eq_iff value "moderate", eq_iff value "aggressive")

-- In every profile the daily stop loss is at least twice the stake and less than three times it, the
-- stop win lies below the stop loss, and a full losing cycle costs more than the daily stop loss.
pub resolve_profile_limits-IsPackage :
    (p : String)
    → let l = resolve_profile_limits p in
      (le (whole 2 ⊗ l.stake_pct) l.daily_stop_loss_pct ≡ true)
      × (lt l.daily_stop_loss_pct (whole 3 ⊗ l.stake_pct) ≡ true)
      × (lt l.daily_stop_win_pct l.daily_stop_loss_pct ≡ true)
      × (lt l.daily_stop_loss_pct l.worst_cycle_pct ≡ true)
unfolding resolve_profile_limits le lt ◌⊗◌ quantize
resolve_profile_limits-IsPackage p = elim (normalize_risk_profile-cases (some p)) [
  | inl e ↦ rw e (refl, refl, refl, refl)
  | inr (inl e) ↦ rw e (refl, refl, refl, refl)
  | inr (inr e) ↦ rw e (refl, refl, refl, refl)
]
