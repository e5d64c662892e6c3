-- ===== src/Otc/Simulation/Cycles.antt =====
-- The legs of past trades, the cycles they are grouped into and the outcome of a cycle.
use divap_trader.Base.{
  ℕ, ◌+◌, String, Bool, true, false, ◌&&◌, Option, none, some, List, [], ◌∷◌, ◌++◌, if◌then◌else◌,
  str_eq, leb, get_last, map,
}
use divap_trader.Decimals.{Decimal, fixed, sum, is_pos, quantize, quotient}
use divap_trader.Data.Trades.{Instant}

pub data CycleOutcome : Type 0 where
  win_l0 win_p1 win_p2 loss_full incomplete : CycleOutcome

pub record OtcLeg : Type 0 where
  pub id : ℕ
  pub symbol : String
  pub direction : String
  pub stake_usd : Decimal
  pub pnl_usd : Decimal
  pub close_reason : String
  pub closed_at : Instant

pub record OtcCycle : Type 0 where
  pub legs : List OtcLeg

-- None stands for the IndexError of a cycle without legs.
unfoldable pub base_stake : OtcCycle → Option Decimal
base_stake cycle = elim (cycle.legs) [ [] ↦ none | leg ∷ _ ↦ some leg.stake_usd ]

unfoldable pub real_pnl : OtcCycle → Decimal
real_pnl cycle = sum (map (λ leg. leg.pnl_usd) cycle.legs)

-- sorted(legs, key=closed_at): stable and ascending.
unfoldable pub insert_leg : OtcLeg → List OtcLeg → List OtcLeg
insert_leg leg [] = leg ∷ []
insert_leg leg (x ∷ xs) =
    let rest = insert_leg leg xs in if leb leg.closed_at x.closed_at then leg ∷ x ∷ xs else x ∷ rest

unfoldable pub sort_legs : List OtcLeg → List OtcLeg
unfolding insert_leg
sort_legs [] = []
sort_legs (x ∷ xs) = insert_leg x (sort_legs xs)

abbrev pub is_entry : OtcLeg → Bool
is_entry leg = str_eq leg.close_reason "expiry"

-- What the loop carries: the cycles so far and the legs of the open one.
pub record Progress : Type 0 where
  pub cycles : List OtcCycle
  pub current : List OtcLeg

unfoldable pub flush_with : List OtcCycle → List OtcLeg → Progress
flush_with cycles [] = record { cycles = cycles; current = [] }
flush_with cycles (leg ∷ legs) = record {
  cycles = cycles ++ (record { legs = leg ∷ legs } ∷ []);
  current = [];
}

unfoldable pub flush : Progress → Progress
unfolding flush_with
flush g = flush_with g.cycles g.current

-- The three branches that end a cycle at a leg.
unfoldable pub ends_cycle : OtcLeg → Bool
ends_cycle leg =
    if is_entry leg && is_pos leg.pnl_usd
    then true
    else if str_eq leg.close_reason "expiry_p1" && is_pos leg.pnl_usd
    then true
    else str_eq leg.close_reason "expiry_p2"

unfoldable pub settle_leg : OtcLeg → Progress → Progress
unfolding ends_cycle flush
settle_leg leg g = if ends_cycle leg then flush g else g

-- A protection without an open cycle is skipped.
unfoldable pub add_protection : OtcLeg → List OtcCycle → List OtcLeg → Progress
unfolding settle_leg
add_protection leg cycles [] = record { cycles = cycles; current = [] }
add_protection leg cycles (first ∷ rest) =
    settle_leg leg (record { cycles = cycles; current = first ∷ rest ++ (leg ∷ []) })

-- An entry starts a cycle, any other leg goes on with one.
unfoldable pub add_kind : Bool → OtcLeg → Progress → Progress
unfolding settle_leg flush add_protection
add_kind true leg g = settle_leg leg (record { cycles = (flush g).cycles; current = leg ∷ [] })
add_kind false leg g = add_protection leg g.cycles g.current

unfoldable pub add_leg : OtcLeg → Progress → Progress
unfolding add_kind
add_leg leg g = add_kind (is_entry leg) leg g

unfoldable pub add_legs : List OtcLeg → Progress → Progress
unfolding add_leg
add_legs [] g = g
add_legs (leg ∷ legs) g = add_legs legs (add_leg leg g)

unfoldable pub group_otc_cycles : List OtcLeg → List OtcCycle
unfolding add_legs sort_legs
group_otc_cycles legs =
    (flush (add_legs (sort_legs legs) (record { cycles = []; current = [] }))).cycles

unfoldable pub outcome_of : OtcLeg → List OtcLeg → CycleOutcome
outcome_of first [] = if is_pos first.pnl_usd then win_l0 else incomplete
outcome_of first (leg ∷ legs) =
    let last = get_last leg legs in
    if str_eq last.close_reason "expiry_p2"
    then (if is_pos last.pnl_usd then win_p2 else loss_full)
    else if str_eq last.close_reason "expiry_p1" && is_pos last.pnl_usd
    then win_p1
    else if str_eq last.close_reason "expiry" && is_pos last.pnl_usd
    then win_l0
    else incomplete

unfoldable pub classify_cycle_outcome : OtcCycle → CycleOutcome
unfolding outcome_of
classify_cycle_outcome cycle = elim (cycle.legs) [
  | [] ↦ incomplete
  | first ∷ rest ↦ outcome_of first rest
]

abbrev pub default_payoff : Decimal
default_payoff = fixed 87 2

unfoldable pub payoff_in : List OtcLeg → Decimal → Decimal
payoff_in [] default = default
payoff_in (leg ∷ legs) default =
    let rest = payoff_in legs default in
    if is_pos leg.pnl_usd && is_pos leg.stake_usd
    then quantize 4 (quotient leg.pnl_usd leg.stake_usd)
    else rest

unfoldable pub observed_payoff : OtcCycle → Decimal → Decimal
unfolding payoff_in
observed_payoff cycle default = payoff_in cycle.legs default

pub record OutcomeCounts : Type 0 where
  pub win_l0s : ℕ
  pub win_p1s : ℕ
  pub win_p2s : ℕ
  pub loss_fulls : ℕ
  pub incompletes : ℕ

unfoldable pub total : OutcomeCounts → ℕ
total c = c.win_l0s + c.win_p1s + c.win_p2s + c.loss_fulls + c.incompletes

unfoldable pub tally : CycleOutcome → OutcomeCounts → OutcomeCounts
tally win_l0 c = record c { win_l0s = c.win_l0s + 1 }
tally win_p1 c = record c { win_p1s = c.win_p1s + 1 }
tally win_p2 c = record c { win_p2s = c.win_p2s + 1 }
tally loss_full c = record c { loss_fulls = c.loss_fulls + 1 }
tally incomplete c = record c { incompletes = c.incompletes + 1 }

unfoldable pub count_from : List OtcCycle → OutcomeCounts → OutcomeCounts
unfolding tally classify_cycle_outcome
count_from [] c = c
count_from (cycle ∷ cycles) c = count_from cycles (tally (classify_cycle_outcome cycle) c)

unfoldable pub count_outcomes : List OtcCycle → OutcomeCounts
unfolding count_from
count_outcomes cycles =
    count_from cycles
      (record { win_l0s = 0; win_p1s = 0; win_p2s = 0; loss_fulls = 0; incompletes = 0 })
