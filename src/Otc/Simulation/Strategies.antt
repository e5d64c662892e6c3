-- ===== src/Otc/Simulation/Strategies.antt =====
-- The ladders of stakes, the profit or loss of a cycle under a strategy, and the summary over cycles.
-- None stands for the exception of a payoff that is not positive or of an index out of range.
use divap_trader.Base.{
  ℕ, zero, suc, Bool, true, false, Option, none, some, List, [], ◌∷◌, if◌then◌else◌, map, get_elem?,
  not,
}
use divap_trader.Base.Int.{pos}
use divap_trader.Decimals.{
  Decimal, whole, ◌⊕◌, ◌⊖◌, ◌⊗◌, negate, sum, is_pos, to_cents, quotient, quantize_by, round_up,
}
use divap_trader.Otc.Models.{OtcMartingale}
use divap_trader.Otc.Martingale.{stake_for_level}
use divap_trader.Otc.Simulation.Cycles.{
  OtcCycle, CycleOutcome, win_l0, win_p1, win_p2, loss_full, incomplete, base_stake, real_pnl,
  classify_cycle_outcome, observed_payoff, default_payoff,
}

pub data SimulationStrategy : Type 0 where
  real multiplier recovery no_gale : SimulationStrategy

abbrev pub max_protections : ℕ
max_protections = 2

-- The stakes of n levels from the given level on.
unfoldable pub stakes_from : Decimal → OtcMartingale → ℕ → ℕ → List Decimal
stakes_from base mg level zero = []
stakes_from base mg level (suc n) =
    stake_for_level base mg (pos level) ∷ stakes_from base mg (suc level) n

unfoldable pub build_multiplier_ladder : Decimal → ℕ → Decimal → List Decimal
unfolding stakes_from
build_multiplier_ladder base protections factor =
    stakes_from base
      (record { enabled = true; max_protections = pos protections; multiplier = factor }) 0
      (suc protections)

-- The stakes of the protections after a last stake, with what was lost before it.
unfoldable pub recovery_stakes : ℕ → Decimal → Decimal → Decimal → Decimal → List Decimal
recovery_stakes zero accumulated last payoff target = []
recovery_stakes (suc n) accumulated last payoff target =
    let lost = accumulated ⊕ last in
    let next = quantize_by round_up 2 (quotient (lost ⊕ target) payoff) in
    next ∷ recovery_stakes n lost next payoff target

unfoldable pub build_recovery_ladder : Decimal → ℕ → Decimal → Decimal → Option (List Decimal)
unfolding recovery_stakes
build_recovery_ladder base protections payoff target =
    if not (is_pos payoff)
    then none
    else some (to_cents base ∷ recovery_stakes protections (whole 0) (to_cents base) payoff target)

unfoldable pub win_pnl : Decimal → Decimal → Decimal
win_pnl stake payoff = to_cents (stake ⊗ payoff)

unfoldable pub add_win : Decimal → Option Decimal → Decimal → Option Decimal
unfolding win_pnl
add_win total none payoff = none
add_win total (some stake) payoff = some (total ⊕ win_pnl stake payoff)

-- `if len(ladder) > 1: total -= ladder[1]`, for the stakes after the first.
unfoldable pub less_second : Decimal → List Decimal → Decimal
less_second total [] = total
less_second total (stake ∷ rest) = total ⊖ stake

unfoldable pub simulate_from_ladder : CycleOutcome → List Decimal → Decimal → Option Decimal
unfolding add_win less_second
simulate_from_ladder outcome [] payoff = none
simulate_from_ladder win_l0 (first ∷ rest) payoff = some (win_pnl first payoff)
simulate_from_ladder win_p1 (first ∷ rest) payoff = add_win (negate first) (get_elem? rest 0) payoff
simulate_from_ladder win_p2 (first ∷ rest) payoff =
    add_win (less_second (negate first) rest) (get_elem? rest 1) payoff
simulate_from_ladder loss_full (first ∷ rest) payoff = some (sum (map negate (first ∷ rest)))
simulate_from_ladder incomplete (first ∷ rest) payoff = some (negate first)

-- The two strategies with a ladder; the others have none of their own.
unfoldable pub ladder_for :
    SimulationStrategy → Decimal → Decimal → Decimal → Decimal → Option (List Decimal)
ladder_for multiplier base payoff factor target =
    some (build_multiplier_ladder base max_protections factor)
ladder_for _ base payoff factor target = build_recovery_ladder base max_protections payoff target

unfoldable pub simulate_ladder : CycleOutcome → Option (List Decimal) → Decimal → Option Decimal
unfolding simulate_from_ladder
simulate_ladder outcome none payoff = none
simulate_ladder outcome (some ladder) payoff = simulate_from_ladder outcome ladder payoff

abbrev pub is_win_l0 : CycleOutcome → Bool
is_win_l0 win_l0 = true
is_win_l0 _ = false

unfoldable pub simulate_base :
    SimulationStrategy
    → CycleOutcome
    → Decimal
    → Decimal
    → Decimal
    → Option Decimal
    → Option Decimal
unfolding simulate_ladder ladder_for
simulate_base strategy outcome payoff factor target none = none
simulate_base no_gale outcome payoff factor target (some base) =
    some (if is_win_l0 outcome then win_pnl base payoff else negate base)
simulate_base strategy outcome payoff factor target (some base) =
    simulate_ladder outcome (ladder_for strategy base payoff factor target) payoff

abbrev pub outcome_or : Option CycleOutcome → CycleOutcome → CycleOutcome
outcome_or none o = o
outcome_or (some given) o = given

abbrev pub payoff_or : Option Decimal → Decimal → Decimal
payoff_or none p = p
payoff_or (some given) p = given

unfoldable pub simulate_cycle_pnl :
    OtcCycle
    → SimulationStrategy
    → Option CycleOutcome
    → Option Decimal
    → Decimal
    → Decimal
    → Option Decimal
unfolding simulate_base
simulate_cycle_pnl cycle real outcome payoff factor target = some (real_pnl cycle)
simulate_cycle_pnl cycle strategy outcome payoff factor target =
    simulate_base strategy (outcome_or outcome (classify_cycle_outcome cycle))
      (payoff_or payoff (observed_payoff cycle default_payoff)) factor target (base_stake cycle)
