-- ===== src/Otc/Martingale/Ladder.antt =====
-- The stakes of a sequence of protections: they never fall from one level to the next, and the
-- configured number of protections caps them.
use divap_trader.Base.{ℕ, zero, suc, ◌+◌, ◌-◌, ◌≤◌, ◌≡◌, true, false, arith, if◌then◌else◌, ltb}
use divap_trader.Base.Int.{pos}
use divap_trader.Decimals.{Decimal, whole, to_cents, ◌⊗◌, power, is_neg, le}
use divap_trader.Decimals.Order.{le_refl, le_trans}
use divap_trader.Decimals.Products.{⊗_mono_right, ⊗_grows_left, power_mono, power-ge-one}
use divap_trader.Decimals.Rounding.{quantize_mono, quantize_exact}
use divap_trader.Otc.Models.{OtcMartingale}
use divap_trader.Otc.Martingale.Defs.{stake_for_level, min_ℤ}

abbrev capped : ℕ → ℕ → ℕ
capped m l = if ltb m l then m else l

-- The stake of a protection, in terms of the capped level.
stake_at :
    (base : Decimal) (mg : OtcMartingale) (m l : ℕ)
    → mg.max_protections ≡ pos m
    → stake_for_level base mg (pos (suc l))
      ≡ to_cents (base ⊗ power mg.multiplier (capped m (suc l)))
unfolding stake_for_level min_ℤ
stake_at base mg m l e = rw e (ground arith)

capped_mono : (m i j : ℕ) → i ≤ j → (d : ℕ) × (capped m j ≡ d + capped m i)
capped_mono m i j h = (capped m j - capped m i, ground arith)

module _ (base : Decimal) (mg : OtcMartingale) (m : ℕ) (e : mg.max_protections ≡ pos m)
    (in_cents : base.scale ≤ 2) (n : is_neg base ≡ false)
    (grows : le (whole 1) mg.multiplier ≡ true) where
  base-le-protection : (j : ℕ) → le base (stake_for_level base mg (pos (suc j))) ≡ true
  base-le-protection j = rw (stake_at base mg m j e) (
      le_trans _ _ _ (quantize_exact 2 base in_cents).0 (
        quantize_mono 2 _ _
          (⊗_grows_left base _ n (power-ge-one mg.multiplier (capped m (suc j)) grows))))

  protection_mono :
      (i j : ℕ)
      → i ≤ j
      → le (stake_for_level base mg (pos (suc i))) (stake_for_level base mg (pos (suc j))) ≡ true
  protection_mono i j h =
      let (d, p) = capped_mono m (suc i) (suc j) (omega arith) in
      rw (stake_at base mg m i e, stake_at base mg m j e, p)
        (quantize_mono 2 _ _
          (⊗_mono_right base _ _ n (power_mono mg.multiplier (capped m (suc i)) d grows)))

  -- With a base stake in whole cents that is not negative, a multiplier of at least 1 and a number of
  -- protections that is not negative, a later level never stakes less.
  pub stake_for_level_mono :
      (i j : ℕ)
      → i ≤ j
      → le (stake_for_level base mg (pos i)) (stake_for_level base mg (pos j)) ≡ true
  unfolding stake_for_level
  stake_for_level_mono zero zero h = le_refl _
  stake_for_level_mono zero (suc j) h = base-le-protection j
  stake_for_level_mono (suc i) zero h = elim h [ ]
  stake_for_level_mono (suc i) (suc j) h = protection_mono i j (omega arith)
