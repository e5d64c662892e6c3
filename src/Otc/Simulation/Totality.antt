-- ===== src/Otc/Simulation/Totality.antt =====
-- The simulation raises on no cycle that the grouping returns, and the summary counts every cycle.
use divap_trader.Base.{ℕ, zero, suc, ◌≡◌, refl, true, Option, some, List, [], ◌∷◌, arith, length}
use divap_trader.Base.Int.{pos}
use divap_trader.Decimals.{Decimal, whole, to_cents, is_pos}
use divap_trader.Otc.Models.{OtcMartingale}
use divap_trader.Otc.Simulation.Cycles.{
  OtcLeg, OtcCycle, CycleOutcome, base_stake, observed_payoff, classify_cycle_outcome,
  default_payoff,
}
use divap_trader.Otc.Simulation.Shape.{IsCycle, IsRun}
use divap_trader.Otc.Simulation.Strategies.{
  SimulationStrategy, real, multiplier, recovery, no_gale, stakes_from, build_multiplier_ladder,
  recovery_stakes, build_recovery_ladder, simulate_from_ladder, ladder_for, simulate_ladder,
  simulate_base, simulate_cycle_pnl, max_protections, add_win, outcome_or, payoff_or,
}

abbrev pub Returns {ℓ} : {A : Type ℓ} → Option A → Type ℓ
Returns {A = A} o = (a : A) × (o ≡ some a)

length-stakes_from :
    (base : Decimal) (mg : OtcMartingale) (level n : ℕ) → length (stakes_from base mg level n) ≡ n
unfolding stakes_from
length-stakes_from base mg level zero = refl
length-stakes_from base mg level (suc n) = omega (arith, length-stakes_from base mg (suc level) n)

length-recovery_stakes :
    (n : ℕ) (accumulated last payoff target : Decimal)
    → length (recovery_stakes n accumulated last payoff target) ≡ n
unfolding recovery_stakes
length-recovery_stakes zero accumulated last payoff target = refl
length-recovery_stakes (suc n) accumulated last payoff target =
    omega (arith, length-recovery_stakes n _ _ payoff target)

-- Both ladders have one stake for the entry and one for each protection, whatever the strategy.
pub length-build_recovery_ladder :
    (base payoff target : Decimal) (n : ℕ)
    → is_pos payoff ≡ true
    → (ladder : List Decimal) × ((build_recovery_ladder base n payoff target ≡ some ladder)
        × (length ladder ≡ suc n))
unfolding build_recovery_ladder
length-build_recovery_ladder base payoff target n h =
    rw h
      (_, (refl, omega (arith, length-recovery_stakes n (whole 0) (to_cents base) payoff target)))

three_stakes :
    (outcome : CycleOutcome) (ladder : List Decimal) (payoff : Decimal)
    → length ladder ≡ 3
    → Returns (simulate_from_ladder outcome ladder payoff)
unfolding simulate_from_ladder add_win
three_stakes outcome [] payoff e = ground arith
three_stakes outcome (a ∷ []) payoff e = ground arith
three_stakes outcome (a ∷ b ∷ []) payoff e = ground arith
three_stakes CycleOutcome.win_l0 (a ∷ b ∷ c ∷ rest) payoff e = (_, refl)
three_stakes CycleOutcome.win_p1 (a ∷ b ∷ c ∷ rest) payoff e = (_, refl)
three_stakes CycleOutcome.win_p2 (a ∷ b ∷ c ∷ rest) payoff e = (_, refl)
three_stakes CycleOutcome.loss_full (a ∷ b ∷ c ∷ rest) payoff e = (_, refl)
three_stakes CycleOutcome.incomplete (a ∷ b ∷ c ∷ rest) payoff e = (_, refl)

pub ladder_for-three :
    (strategy : SimulationStrategy) (base payoff factor target : Decimal)
    → is_pos payoff ≡ true
    → (ladder : List Decimal) × ((ladder_for strategy base payoff factor target ≡ some ladder)
        × (length ladder ≡ 3))
unfolding ladder_for build_multiplier_ladder
ladder_for-three multiplier base payoff factor target h = (
  _,
  (
    refl,
    length-stakes_from base
        (record { enabled = true; max_protections = pos max_protections; multiplier = factor }) 0 3,
  ),
)
ladder_for-three real base payoff factor target h =
    length-build_recovery_ladder base payoff target 2 h
ladder_for-three recovery base payoff factor target h =
    length-build_recovery_ladder base payoff target 2 h
ladder_for-three no_gale base payoff factor target h =
    length-build_recovery_ladder base payoff target 2 h

simulate_ladder-Returns :
    (strategy : SimulationStrategy) (outcome : CycleOutcome) (base payoff factor target : Decimal)
    → is_pos payoff ≡ true
    → Returns (simulate_ladder outcome (ladder_for strategy base payoff factor target) payoff)
unfolding simulate_ladder
simulate_ladder-Returns strategy outcome base payoff factor target h =
    let (ladder, (e, l)) = ladder_for-three strategy base payoff factor target h in
    rw e (three_stakes outcome ladder payoff l)

pub base_stake-Returns :
    (legs : List OtcLeg) → IsRun legs → Returns (base_stake (record { legs = legs }))
unfolding base_stake
base_stake-Returns [] h = ground arith
base_stake-Returns (leg ∷ legs) h = (leg.stake_usd, refl)

simulate_base-Returns :
    (strategy : SimulationStrategy) (outcome : CycleOutcome) (payoff factor target base : Decimal)
    → is_pos payoff ≡ true
    → Returns (simulate_base strategy outcome payoff factor target (some base))
unfolding simulate_base
simulate_base-Returns no_gale outcome payoff factor target base h = (_, refl)
simulate_base-Returns real outcome payoff factor target base h =
    simulate_ladder-Returns real outcome base payoff factor target h
simulate_base-Returns multiplier outcome payoff factor target base h =
    simulate_ladder-Returns multiplier outcome base payoff factor target h
simulate_base-Returns recovery outcome payoff factor target base h =
    simulate_ladder-Returns recovery outcome base payoff factor target h

module _ (cycle : OtcCycle) (outcome : Option CycleOutcome) (payoff : Option Decimal)
    (factor target : Decimal) (run : IsCycle cycle)
    (paying : is_pos (payoff_or payoff (observed_payoff cycle default_payoff)) ≡ true) where
  simulate_resolved :
      (strategy : SimulationStrategy)
      → Returns (
          simulate_base strategy
            (outcome_or outcome (classify_cycle_outcome cycle))
            (payoff_or payoff (observed_payoff cycle default_payoff))
            factor
            target
            (base_stake cycle))
  simulate_resolved strategy =
      let (base, e) = base_stake-Returns cycle.legs run in
      rw e (simulate_base-Returns strategy _ _ factor target base paying)

  -- For a cycle with the shape that the grouping gives and a positive payoff, given or observed, the
  -- simulation of every strategy and every outcome returns: no index is out of range and no payoff refused.
  pub simulate_cycle_pnl-Returns :
      (strategy : SimulationStrategy)
      → Returns (simulate_cycle_pnl cycle strategy outcome payoff factor target)
  unfolding simulate_cycle_pnl
  simulate_cycle_pnl-Returns real = (_, refl)
  simulate_cycle_pnl-Returns multiplier = simulate_resolved multiplier
  simulate_cycle_pnl-Returns recovery = simulate_resolved recovery
  simulate_cycle_pnl-Returns no_gale = simulate_resolved no_gale
