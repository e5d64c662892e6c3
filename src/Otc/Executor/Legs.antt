-- ===== src/Otc/Executor/Legs.antt =====
-- The legs of a sequence: consecutive levels, each after a settled loss of the one before.
use divap_trader.Base.{
  ℕ, zero, suc, ◌+◌, ◌≤◌, ◌<◌, ◌≡◌, refl, inl, inr, Bool, true, false, ◌&&◌, not, Option, String,
  none, some, List, [], ◌∷◌, arith, length, Bool-cases, get_last,
}
use divap_trader.Base.Int.{pos}
use divap_trader.Decimals.{Decimal}
use divap_trader.Otc.Models.{OtcSignal, OtcTradeResult, OtcProfileConfig, OtcSettlementContext}
use divap_trader.Otc.Martingale.{is_loss}
use divap_trader.Otc.Executor.Ports.{Ports, ExecState, place_binary}
use divap_trader.Otc.Executor.Leg.{
  execute_leg, place_leg, has_scheduled_legs, wait_and_trade, after_wait, trade_leg,
  execute_leg_timed, settle_timed, store_result,
}
use divap_trader.Otc.Executor.Sequence.{run_legs, goes_on}

-- A leg whose order was executed, not a dry run, and settled with a loss.
pub record IsLost (leg : OtcTradeResult) : Type 0 where
  pub executed : leg.executed ≡ true
  pub real : leg.dry_run ≡ false
  pub lost : is_loss leg ≡ true

-- Levels count up from the first, and every leg but the last was lost.
abbrev pub IsLadder : ℕ → List OtcTradeResult → Type 0
IsLadder level [] = Unit
IsLadder level (leg ∷ []) = leg.protection_level ≡ level
IsLadder level (leg ∷ next ∷ legs) =
    (leg.protection_level ≡ level) × IsLost leg × IsLadder (level + 1) (next ∷ legs)

module _ {W : Type 0} (p : Ports W) (cfg : OtcProfileConfig) where
  store_result-level :
      (signal : OtcSignal) (r : OtcTradeResult) (level : ℕ) (s : ExecState W)
      → (store_result p cfg signal r level s).0.protection_level ≡ level
  unfolding store_result
  store_result-level signal r level s = refl

  settle_timed-level :
      (signal : OtcSignal) (level max : ℕ) (r : OtcTradeResult) (ctx : Option OtcSettlementContext)
      (s : ExecState W)
      → (settle_timed p cfg signal level max r ctx s).0.protection_level ≡ level
  unfolding settle_timed
  settle_timed-level signal level max r none s = refl
  settle_timed-level signal level max r (some ctx) s = elim (Bool-cases (not r.executed)) [
    | inl e ↦ rw e
    | inr e ↦ rw e (store_result-level signal _ level _)
  ]

  place_leg-level :
      (signal : OtcSignal) (level : ℕ) (stake : Decimal) (s : ExecState W)
      → (place_leg p cfg signal level stake s).0.protection_level ≡ level
  unfolding place_leg
  place_leg-level signal level stake s =
      elim (Bool-cases (not (place_binary p cfg signal stake s.world).0.executed)) [
        | inl e ↦ rw e
        | inr e ↦ rw e (store_result-level signal _ level _)
      ]

  trade_leg-level :
      (signal : OtcSignal) (level max : ℕ) (s : ExecState W)
      → (trade_leg p cfg signal level max s).0.protection_level ≡ level
  unfolding trade_leg execute_leg_timed
  trade_leg-level signal level max s =
      elim (Bool-cases (has_scheduled_legs signal && not cfg.dry_run)) [
        | inl e ↦ rw e (settle_timed-level signal level max _ _ _)
        | inr e ↦ rw e (place_leg-level signal level _ _)
      ]

  after_wait-level :
      (signal : OtcSignal) (level max : ℕ) (ok : Bool) (reason : Option String) (s : ExecState W)
      → (after_wait p cfg signal level max ok reason s).0.protection_level ≡ level
  unfolding after_wait
  after_wait-level signal level max false reason s = refl
  after_wait-level signal level max true reason s = trade_leg-level signal level max s

  execute_leg-level :
      (signal : OtcSignal) (level max : ℕ) (s : ExecState W)
      → (execute_leg p cfg signal level max s).0.protection_level ≡ level
  unfolding execute_leg wait_and_trade
  execute_leg-level signal level max s = elim (Bool-cases (has_scheduled_legs signal)) [
    | inl e ↦ rw e (after_wait-level signal level max _ _ _)
    | inr e ↦ rw e (trade_leg-level signal level max s)
  ]

goes_on-IsLost : (leg : OtcTradeResult) (level max : ℕ) → goes_on leg level max ≡ true → IsLost leg
unfolding goes_on
goes_on-IsLost leg level max h = ground arith

goes_on-below : (leg : OtcTradeResult) (level max : ℕ) → goes_on leg level max ≡ true → level < max
unfolding goes_on
goes_on-below leg level max h = ground arith

IsLadder-cons :
    (level : ℕ) (leg : OtcTradeResult) (legs : List OtcTradeResult)
    → leg.protection_level ≡ level
    → IsLost leg
    → IsLadder (level + 1) legs
    → IsLadder level (leg ∷ legs)
IsLadder-cons level leg [] e lost rest = e
IsLadder-cons level leg (next ∷ legs) e lost rest = (e, lost, rest)

module _ {W : Type 0} (p : Ports W) (cfg : OtcProfileConfig) where
  -- The legs that the loop makes form a ladder from its first level on, whatever the broker answers.
  pub run_legs-IsLadder :
      (signal : OtcSignal) (max rounds level : ℕ) (s : ExecState W)
      → IsLadder level (run_legs p cfg signal max rounds level s).0
  unfolding run_legs
  run_legs-IsLadder signal max zero level s = tt
  run_legs-IsLadder signal max (suc rounds) level s =
      let named = record signal { protection_level = pos level } in
      let leg = (execute_leg p cfg named level max s).0 in
      let s' = (execute_leg p cfg named level max s).1 in
      elim (Bool-cases (goes_on leg level max)) [
        | inl e ↦ rw e (
            IsLadder-cons level leg _ (execute_leg-level p cfg named level max s)
              (goes_on-IsLost leg level max e) (run_legs-IsLadder signal max rounds (level + 1) s'))
        | inr e ↦ rw e (execute_leg-level p cfg named level max s)
      ]

  -- There are at most as many legs as levels left.
  pub length-run_legs :
      (signal : OtcSignal) (max rounds level : ℕ) (s : ExecState W)
      → length (run_legs p cfg signal max rounds level s).0 ≤ rounds
  unfolding run_legs
  length-run_legs signal max zero level s = omega arith
  length-run_legs signal max (suc rounds) level s =
      let named = record signal { protection_level = pos level } in
      let leg = (execute_leg p cfg named level max s).0 in
      let s' = (execute_leg p cfg named level max s).1 in
      elim (Bool-cases (goes_on leg level max)) [
        | inl e ↦ rw e (omega (arith, length-run_legs signal max rounds (level + 1) s'))
        | inr e ↦ rw e (omega arith)
      ]

  -- With one round for each level from the first to the last, and one at least, the loop ends only at a leg
  -- after which it does not go on.
  pub run_legs_stops :
      (signal : OtcSignal) (max rounds level : ℕ) (s : ExecState W) (d : OtcTradeResult)
      → suc rounds + level ≡ max + 1
      → let last = get_last d (run_legs p cfg signal max (suc rounds) level s).0 in
        goes_on last last.protection_level max ≡ false
  unfolding run_legs
  run_legs_stops signal max zero level s d h =
      let named = record signal { protection_level = pos level } in
      let leg = (execute_leg p cfg named level max s).0 in
      elim (Bool-cases (goes_on leg level max)) [
        | inl e ↦ absurd (omega (arith, goes_on-below leg level max e))
        | inr e ↦ rw e (rw (execute_leg-level p cfg named level max s) e)
      ]
  run_legs_stops signal max (suc rounds) level s d h =
      let named = record signal { protection_level = pos level } in
      let leg = (execute_leg p cfg named level max s).0 in
      let s' = (execute_leg p cfg named level max s).1 in
      elim (Bool-cases (goes_on leg level max)) [
        | inl e ↦ rw e (run_legs_stops signal max rounds (level + 1) s' leg (omega arith))
        | inr e ↦ rw e (rw (execute_leg-level p cfg named level max s) e)
      ]
