-- ===== src/Otc/Simulation/Shape.antt =====
-- The shape of a cycle: an entry, then protections alone.
use divap_trader.Base.{
  ◌≡◌, refl, true, false, List, [], ◌∷◌, ◌++◌, All, All-append, Bool-cases, inl, inr, Bool,
}
use divap_trader.Otc.Simulation.Cycles.{
  OtcLeg, OtcCycle, Progress, is_entry, sort_legs, flush, flush_with, settle_leg, add_protection,
  add_leg, add_kind, add_legs, group_otc_cycles, ends_cycle,
}

abbrev pub IsRun : List OtcLeg → Type 0
IsRun [] = false ≡ true
IsRun (leg ∷ legs) = (is_entry leg ≡ true) × All (λ l. is_entry l ≡ false) legs

abbrev pub IsOpen : List OtcLeg → Type 0
IsOpen [] = Unit
IsOpen (leg ∷ legs) = IsRun (leg ∷ legs)

abbrev pub IsCycle : OtcCycle → Type 0
IsCycle cycle = IsRun cycle.legs

abbrev IsGrouped : Progress → Type 0
IsGrouped g = All IsCycle g.cycles × IsOpen g.current

flush_with-IsGrouped :
    (cycles : List OtcCycle) (current : List OtcLeg)
    → All IsCycle cycles
    → IsOpen current
    → IsGrouped (flush_with cycles current)
unfolding flush_with
flush_with-IsGrouped cycles [] c o = (c, tt)
flush_with-IsGrouped cycles (leg ∷ legs) c o =
    (All-append IsCycle cycles (record { legs = leg ∷ legs } ∷ []) c (o, tt), tt)

settle_leg-IsGrouped : (leg : OtcLeg) (g : Progress) → IsGrouped g → IsGrouped (settle_leg leg g)
unfolding settle_leg flush
settle_leg-IsGrouped leg g h = elim (Bool-cases (ends_cycle leg)) [
  | inl e ↦ rw e (flush_with-IsGrouped g.cycles g.current (h.0) (h.1))
  | inr e ↦ rw e h
]

add_protection-IsGrouped :
    (leg : OtcLeg) (cycles : List OtcCycle) (current : List OtcLeg)
    → is_entry leg ≡ false
    → All IsCycle cycles
    → IsOpen current
    → IsGrouped (add_protection leg cycles current)
unfolding add_protection
add_protection-IsGrouped leg cycles [] e c o = (c, tt)
add_protection-IsGrouped leg cycles (first ∷ rest) e c o =
    settle_leg-IsGrouped leg (record { cycles = cycles; current = first ∷ rest ++ (leg ∷ []) })
      (c, (o.0, All-append (λ l. is_entry l ≡ false) rest (leg ∷ []) (o.1) (e, tt)))

add_kind-IsGrouped :
    (b : Bool) (leg : OtcLeg) (g : Progress)
    → is_entry leg ≡ b
    → IsGrouped g
    → IsGrouped (add_kind b leg g)
unfolding add_kind flush
add_kind-IsGrouped true leg g e h =
    settle_leg-IsGrouped leg
      (record { cycles = (flush_with g.cycles g.current).cycles; current = leg ∷ [] })
      ((flush_with-IsGrouped g.cycles g.current (h.0) (h.1)).0, (e, tt))
add_kind-IsGrouped false leg g e h = add_protection-IsGrouped leg g.cycles g.current e (h.0) (h.1)

add_leg-IsGrouped : (leg : OtcLeg) (g : Progress) → IsGrouped g → IsGrouped (add_leg leg g)
unfolding add_leg
add_leg-IsGrouped leg g h = add_kind-IsGrouped (is_entry leg) leg g refl h

add_legs-IsGrouped : (legs : List OtcLeg) (g : Progress) → IsGrouped g → IsGrouped (add_legs legs g)
unfolding add_legs
add_legs-IsGrouped [] g h = h
add_legs-IsGrouped (leg ∷ legs) g h =
    add_legs-IsGrouped legs (add_leg leg g) (add_leg-IsGrouped leg g h)

-- Every cycle that the grouping returns has legs, the first of which is an entry, and the others are none.
pub group_otc_cycles-IsCycle : (legs : List OtcLeg) → All IsCycle (group_otc_cycles legs)
unfolding group_otc_cycles flush
group_otc_cycles-IsCycle legs =
    let g = add_legs (sort_legs legs) (record { cycles = []; current = [] }) in
    let h = add_legs-IsGrouped (sort_legs legs) (record { cycles = []; current = [] }) (tt, tt) in
    (flush_with-IsGrouped g.cycles g.current (h.0) (h.1)).0
