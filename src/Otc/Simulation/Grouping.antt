-- ===== src/Otc/Simulation/Grouping.antt =====
-- Every cycle starts with its one entry leg, every entry starts a cycle, and the tallies count them all.
use divap_trader.Base.{
  ℕ, ◌+◌, ◌≡◌, refl, List, [], ◌∷◌, ◌++◌, arith, length, length-append, if◌then◌else◌,
}
use divap_trader.Otc.Simulation.Cycles.{
  OtcLeg, OtcCycle, Progress, CycleOutcome, OutcomeCounts, is_entry, insert_leg, sort_legs, flush,
  flush_with, settle_leg, add_protection, add_leg, add_kind, add_legs, group_otc_cycles, total,
  tally, count_from, count_outcomes, classify_cycle_outcome,
}

total-tally : (o : CycleOutcome) (c : OutcomeCounts) → total (tally o c) ≡ total c + 1
unfolding total tally
total-tally o c = ground arith

total-count_from :
    (cycles : List OtcCycle) (c : OutcomeCounts)
    → total (count_from cycles c) ≡ total c + length cycles
unfolding count_from
total-count_from [] c = omega arith
total-count_from (cycle ∷ cycles) c =
    let o = classify_cycle_outcome cycle in
    omega (arith, total-count_from cycles (tally o c), total-tally o c)

-- The counts of the outcomes add up to the number of cycles.
pub total-count_outcomes : (cycles : List OtcCycle) → total (count_outcomes cycles) ≡ length cycles
unfolding count_outcomes total
total-count_outcomes cycles = omega (
  arith,
  total-count_from cycles
      (record { win_l0s = 0; win_p1s = 0; win_p2s = 0; loss_fulls = 0; incompletes = 0 }),
)

abbrev pub entry_number : OtcLeg → ℕ
entry_number leg = if is_entry leg then 1 else 0

-- The number of entries among legs.
abbrev pub entries : List OtcLeg → ℕ
entries [] = 0
entries (leg ∷ legs) = entry_number leg + entries legs

entries-insert_leg :
    (leg : OtcLeg) (xs : List OtcLeg) → entries (insert_leg leg xs) ≡ entry_number leg + entries xs
unfolding insert_leg
entries-insert_leg leg [] = omega arith
entries-insert_leg leg (x ∷ xs) = ground (arith, entries-insert_leg leg xs)

entries-sort_legs : (legs : List OtcLeg) → entries (sort_legs legs) ≡ entries legs
unfolding sort_legs
entries-sort_legs [] = refl
entries-sort_legs (x ∷ xs) =
    ground (arith, entries-insert_leg x (sort_legs xs), entries-sort_legs xs)

-- The number of cycles, the open one included.
abbrev open_number : List OtcLeg → ℕ
open_number [] = 0
open_number (leg ∷ legs) = 1

abbrev cycle_number : Progress → ℕ
cycle_number g = length g.cycles + open_number g.current

cycle_number-flush_with :
    (cycles : List OtcCycle) (current : List OtcLeg)
    → cycle_number (flush_with cycles current) ≡ length cycles + open_number current
unfolding flush_with
cycle_number-flush_with cycles [] = refl
cycle_number-flush_with cycles (leg ∷ legs) =
    omega (arith, length-append cycles (record { legs = leg ∷ legs } ∷ []))

cycle_number-settle_leg :
    (leg : OtcLeg) (g : Progress) → cycle_number (settle_leg leg g) ≡ cycle_number g
unfolding settle_leg flush
cycle_number-settle_leg leg g = ground (arith, cycle_number-flush_with g.cycles g.current)

cycle_number-add_protection :
    (leg : OtcLeg) (cycles : List OtcCycle) (current : List OtcLeg)
    → cycle_number (add_protection leg cycles current) ≡ length cycles + open_number current
unfolding add_protection
cycle_number-add_protection leg cycles [] = refl
cycle_number-add_protection leg cycles (first ∷ rest) =
    cycle_number-settle_leg leg (record { cycles = cycles; current = first ∷ rest ++ (leg ∷ []) })

-- A flush leaves no open leg.
flushed :
    (cycles : List OtcCycle) (current : List OtcLeg)
    → length (flush_with cycles current).cycles ≡ length cycles + open_number current
unfolding flush_with
flushed cycles [] = omega arith
flushed cycles (leg ∷ legs) = length-append cycles (record { legs = leg ∷ legs } ∷ [])

cycle_number-add_leg :
    (leg : OtcLeg) (g : Progress) → cycle_number (add_leg leg g) ≡ cycle_number g + entry_number leg
unfolding add_leg add_kind flush
cycle_number-add_leg leg g = ground (
  arith,
  cycle_number-settle_leg leg
      (record { cycles = (flush_with g.cycles g.current).cycles; current = leg ∷ [] }),
  flushed g.cycles g.current,
  cycle_number-add_protection leg g.cycles g.current,
)

cycle_number-add_legs :
    (legs : List OtcLeg) (g : Progress)
    → cycle_number (add_legs legs g) ≡ cycle_number g + entries legs
unfolding add_legs
cycle_number-add_legs [] g = omega arith
cycle_number-add_legs (leg ∷ legs) g =
    omega (arith, cycle_number-add_legs legs (add_leg leg g), cycle_number-add_leg leg g)

-- There are as many cycles as entry legs: each entry starts a cycle, and no cycle starts without one.
pub length-group_otc_cycles : (legs : List OtcLeg) → length (group_otc_cycles legs) ≡ entries legs
unfolding group_otc_cycles flush
length-group_otc_cycles legs =
    let g = add_legs (sort_legs legs) (record { cycles = []; current = [] }) in
    omega (
      arith,
      flushed g.cycles g.current,
      entries-sort_legs legs,
      cycle_number-add_legs (sort_legs legs) (record { cycles = []; current = [] }),
    )
