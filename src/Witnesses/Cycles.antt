-- ===== src/Witnesses/Cycles.antt =====
-- The theorems on the simulation at two cycles: one lost and one won at its first protection.
use divap_trader.Base.{ℕ, ◌≡◌, refl, true, none, some, List, [], ◌∷◌, All, String}
use divap_trader.Base.Int.{ℤ, pos, negsuc}
use divap_trader.Decimals.{Decimal, whole, fixed, is_pos, quantize, quotient}
use divap_trader.Otc.Simulation.Cycles.{
  OtcLeg, OtcCycle, group_otc_cycles, sort_legs, add_legs, flush, observed_payoff, default_payoff,
}
use divap_trader.Otc.Simulation.Grouping.{entries}
use divap_trader.Otc.Simulation.Shape.{IsCycle, group_otc_cycles-IsCycle}
use divap_trader.Otc.Simulation.Strategies.{recovery, simulate_cycle_pnl}
use divap_trader.Otc.Simulation.Summary.{StrategySummary, summarize_strategy}
use divap_trader.Otc.Simulation.Totality.{Returns, simulate_cycle_pnl-Returns}
use divap_trader.Otc.Simulation.Counting.{summarize_strategy-entries}

abbrev leg : ℕ → Decimal → ℤ → String → OtcLeg
leg n stake cents reason = record {
  id = n;
  symbol = "EURUSD-OTC";
  direction = "buy";
  stake_usd = stake;
  pnl_usd = record { num = cents; scale = 2 };
  close_reason = reason;
  closed_at = n;
}

abbrev first_loss : OtcLeg
first_loss = leg 1 (whole 5) (negsuc 499) "expiry"

abbrev second_win : OtcLeg
second_win = leg 2 (whole 11) (pos 957) "expiry_p1"

-- The last leg is an orphan: no cycle is open when it comes.
abbrev legs : List OtcLeg
legs = second_win ∷ first_loss ∷ leg 3 (whole 20) (pos 1740) "expiry_p2" ∷ []

abbrev cycle : OtcCycle
cycle = record { legs = first_loss ∷ second_win ∷ [] }

group_otc_cycles-IsCycle_example : All IsCycle (group_otc_cycles legs)
group_otc_cycles-IsCycle_example = group_otc_cycles-IsCycle legs

payoff_positive : is_pos (observed_payoff cycle default_payoff) ≡ true
unfolding observed_payoff quantize quotient
payoff_positive = refl

simulate_cycle_pnl-Returns_example :
    Returns (simulate_cycle_pnl cycle recovery none none (fixed 22 1) (whole 0))
simulate_cycle_pnl-Returns_example =
    simulate_cycle_pnl-Returns cycle none none (fixed 22 1) (whole 0) (refl, (refl, tt))
      payoff_positive recovery

paying : All (λ c. is_pos (observed_payoff c default_payoff) ≡ true) (group_otc_cycles legs)
unfolding group_otc_cycles sort_legs add_legs flush observed_payoff quantize quotient
paying = (refl, tt)

summarize_strategy-entries_example :
    (s : StrategySummary) × ((summarize_strategy
          (group_otc_cycles legs)
          recovery
          default_payoff
          (fixed 22 1)
          (whole 0)
        ≡ some s)
      × (s.cycle_count ≡ entries legs))
summarize_strategy-entries_example =
    summarize_strategy-entries recovery default_payoff (fixed 22 1) (whole 0) legs paying
