-- ===== src/Otc/Simulation/Counting.antt =====
-- The summary of a strategy counts every cycle.
use divap_trader.Base.{
  ℕ, ◌+◌, ◌≡◌, refl, true, Option, some, List, [], ◌∷◌, arith, length, All, length-append,
}
use divap_trader.Decimals.{Decimal, whole, is_pos}
use divap_trader.Otc.Simulation.Cycles.{
  OtcLeg, OtcCycle, observed_payoff, classify_cycle_outcome, group_otc_cycles,
}
use divap_trader.Otc.Simulation.Shape.{IsCycle, group_otc_cycles-IsCycle}
use divap_trader.Otc.Simulation.Grouping.{entries, length-group_otc_cycles}
use divap_trader.Otc.Simulation.Strategies.{SimulationStrategy, real, multiplier, recovery, no_gale}
use divap_trader.Otc.Simulation.Summary.{
  Tally, StrategySummary, risk_ladder, risk_base, add_cycle, tally_cycle, tally_cycles, tally_next,
  summary_with, summary_of, summarize_strategy,
}
use divap_trader.Otc.Simulation.Totality.{
  Returns, base_stake-Returns, ladder_for-three, simulate_cycle_pnl-Returns,
}

risk_base-Returns :
    (strategy : SimulationStrategy) (base payoff factor target : Decimal)
    → is_pos payoff ≡ true
    → Returns (risk_base strategy (some base) payoff factor target)
unfolding risk_base
risk_base-Returns no_gale base payoff factor target h = (_, refl)
risk_base-Returns real base payoff factor target h =
    let (l, (e, n)) = ladder_for-three real base payoff factor target h in (l, e)
risk_base-Returns multiplier base payoff factor target h =
    let (l, (e, n)) = ladder_for-three multiplier base payoff factor target h in (l, e)
risk_base-Returns recovery base payoff factor target h =
    let (l, (e, n)) = ladder_for-three recovery base payoff factor target h in (l, e)

risk_ladder-Returns :
    (strategy : SimulationStrategy) (cycle : OtcCycle) (payoff factor target : Decimal)
    → IsCycle cycle
    → is_pos payoff ≡ true
    → Returns (risk_ladder strategy cycle payoff factor target)
unfolding risk_ladder
risk_ladder-Returns real cycle payoff factor target run h = (_, refl)
risk_ladder-Returns multiplier cycle payoff factor target run h =
    let (base, e) = base_stake-Returns cycle.legs run in
    rw e (risk_base-Returns multiplier base payoff factor target h)
risk_ladder-Returns recovery cycle payoff factor target run h =
    let (base, e) = base_stake-Returns cycle.legs run in
    rw e (risk_base-Returns recovery base payoff factor target h)
risk_ladder-Returns no_gale cycle payoff factor target run h =
    let (base, e) = base_stake-Returns cycle.legs run in
    rw e (risk_base-Returns no_gale base payoff factor target h)

-- The tally has one result more.
abbrev Adds : ℕ → Tally → Option Tally → Type 0
Adds n t o = (u : Tally) × ((o ≡ some u) × (length u.pnls ≡ n + length t.pnls))

add_cycle-Adds :
    (pnl : Decimal) (ladder : List Decimal) (t : Tally)
    → Adds 1 t (add_cycle (some pnl) (some ladder) t)
unfolding add_cycle
add_cycle-Adds pnl ladder t = (_, (refl, omega (arith, length-append t.pnls (pnl ∷ []))))

module _ (strategy : SimulationStrategy) (default factor target : Decimal) where
  abbrev IsPaying : OtcCycle → Type 0
  IsPaying cycle = is_pos (observed_payoff cycle default) ≡ true

  tally_cycle-Adds :
      (cycle : OtcCycle) (t : Tally)
      → IsCycle cycle
      → IsPaying cycle
      → Adds 1 t (tally_cycle strategy default factor target cycle t)
  unfolding tally_cycle
  tally_cycle-Adds cycle t run paying =
      let payoff = observed_payoff cycle default in
      let (pnl, e) =
        simulate_cycle_pnl-Returns cycle (some (classify_cycle_outcome cycle)) (some payoff) factor
          target run paying strategy in
      let (ladder, d) = risk_ladder-Returns strategy cycle payoff factor target run paying in
      rw (e, d) (add_cycle-Adds pnl ladder t)

  tally_cycles-Adds :
      (cycles : List OtcCycle) (t : Tally)
      → All IsCycle cycles
      → All IsPaying cycles
      → Adds (length cycles) t (tally_cycles strategy default factor target cycles (some t))
  unfolding tally_cycles tally_next
  tally_cycles-Adds [] t run paying = (t, (refl, omega arith))
  tally_cycles-Adds (cycle ∷ cycles) t run paying =
      let (u, (e, n)) = tally_cycle-Adds cycle t (run.0) (paying.0) in
      let (v, (d, m)) = tally_cycles-Adds cycles u (run.1) (paying.1) in rw e (v, (d, omega arith))

-- Over the cycles of any list of legs, with a positive payoff observed in each cycle or else assumed, the
-- summary of every strategy returns, and it counts one cycle for each entry leg.
pub summarize_strategy-entries :
    (strategy : SimulationStrategy) (default factor target : Decimal) (legs : List OtcLeg)
    → All (λ cycle. is_pos (observed_payoff cycle default) ≡ true) (group_otc_cycles legs)
    → (s : StrategySummary) × ((summarize_strategy
            (group_otc_cycles legs)
            strategy
            default
            factor
            target
          ≡ some s)
        × (s.cycle_count ≡ entries legs))
unfolding summarize_strategy summary_with summary_of
summarize_strategy-entries strategy default factor target legs paying =
    let (t, (e, n)) =
      tally_cycles-Adds strategy default factor target (group_otc_cycles legs)
        (record { pnls = []; max_risk = whole 0 }) (group_otc_cycles-IsCycle legs) paying in
    rw e (_, (refl, omega (arith, length-group_otc_cycles legs)))
