-- ===== src/Otc/Simulation/Summary.antt =====
-- The summary of a strategy over cycles.
use divap_trader.Base.{ℕ, Option, none, some, List, [], ◌∷◌, ◌++◌, if◌then◌else◌, map, length, ◌==◌}
use divap_trader.Decimals.{Decimal, whole, sum, to_cents, quotient, minimum, maximum}
use divap_trader.Otc.Simulation.Cycles.{
  OtcCycle, base_stake, classify_cycle_outcome, observed_payoff,
}
use divap_trader.Otc.Simulation.Strategies.{
  SimulationStrategy, real, no_gale, simulate_cycle_pnl, ladder_for,
}

pub record StrategySummary : Type 0 where
  pub strategy : SimulationStrategy
  pub total_pnl : Decimal
  pub cycle_count : ℕ
  pub avg_pnl_per_cycle : Decimal
  pub max_cycle_loss : Decimal
  pub max_cycle_risk : Decimal

unfoldable pub risk_base :
    SimulationStrategy → Option Decimal → Decimal → Decimal → Decimal → Option (List Decimal)
risk_base strategy none payoff factor target = none
risk_base no_gale (some base) payoff factor target = some (base ∷ [])
risk_base strategy (some base) payoff factor target = ladder_for strategy base payoff factor target

-- The stakes that a cycle puts at risk.
unfoldable pub risk_ladder :
    SimulationStrategy → OtcCycle → Decimal → Decimal → Decimal → Option (List Decimal)
unfolding risk_base
risk_ladder real cycle payoff factor target = some (map (λ leg. leg.stake_usd) cycle.legs)
risk_ladder strategy cycle payoff factor target =
    risk_base strategy (base_stake cycle) payoff factor target

-- The results so far and the highest risk.
pub record Tally : Type 0 where
  pub pnls : List Decimal
  pub max_risk : Decimal

unfoldable pub add_cycle : Option Decimal → Option (List Decimal) → Tally → Option Tally
add_cycle none ladder t = none
add_cycle (some pnl) none t = none
add_cycle (some pnl) (some ladder) t =
    some (record { pnls = t.pnls ++ (pnl ∷ []); max_risk = maximum t.max_risk (sum ladder) })

module _ (strategy : SimulationStrategy) (payoff_default factor target : Decimal) where
  unfoldable pub tally_cycle : OtcCycle → Tally → Option Tally
  unfolding add_cycle
  tally_cycle cycle t =
      let payoff = observed_payoff cycle payoff_default in
      add_cycle
        (simulate_cycle_pnl cycle strategy (some (classify_cycle_outcome cycle)) (some payoff)
          factor target)
        (risk_ladder strategy cycle payoff factor target) t

  unfoldable pub tally_next : Option Tally → OtcCycle → Option Tally
  unfolding tally_cycle
  tally_next none cycle = none
  tally_next (some t) cycle = tally_cycle cycle t

  unfoldable pub tally_cycles : List OtcCycle → Option Tally → Option Tally
  unfolding tally_next
  tally_cycles [] t = t
  tally_cycles (cycle ∷ cycles) t = tally_cycles cycles (tally_next t cycle)

-- min(pnls) if pnls else 0
unfoldable pub least_from : Decimal → List Decimal → Decimal
least_from x [] = x
least_from x (y ∷ ys) = least_from (minimum x y) ys

unfoldable pub least : List Decimal → Decimal
unfolding least_from
least [] = whole 0
least (x ∷ xs) = least_from x xs

unfoldable pub summary_of : SimulationStrategy → Tally → StrategySummary
unfolding least
summary_of strategy t =
    let total = sum t.pnls in
    let count = length t.pnls in
    record {
      strategy = strategy;
      total_pnl = to_cents total;
      cycle_count = count;
      avg_pnl_per_cycle = if count == 0 then whole 0 else to_cents (quotient total (whole count));
      max_cycle_loss = least t.pnls;
      max_cycle_risk = to_cents t.max_risk;
    }

unfoldable pub summary_with : SimulationStrategy → Option Tally → Option StrategySummary
unfolding summary_of
summary_with strategy none = none
summary_with strategy (some t) = some (summary_of strategy t)

unfoldable pub summarize_strategy :
    List OtcCycle → SimulationStrategy → Decimal → Decimal → Decimal → Option StrategySummary
unfolding summary_with tally_cycles
summarize_strategy cycles strategy payoff_default factor target = summary_with strategy (
    tally_cycles strategy payoff_default factor target cycles
      (some (record { pnls = []; max_risk = whole 0 })))
