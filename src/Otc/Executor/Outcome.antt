-- ===== src/Otc/Executor/Outcome.antt =====
-- The reason of a sequence says how its last leg ended.
use divap_trader.Base.{
  ℕ, zero, suc, ◌+◌, ◌-◌, ◌≤◌, ◌<◌, ◌≡◌, ◌≢◌, refl, inl, inr, Bool, true, false, ◌&&◌, not, List,
  [], ◌∷◌, arith, length, if◌then◌else◌, Bool-cases, leb, le→leb, any, all, get_last,
}
use divap_trader.Base.Int.{pos, pos_part}
use divap_trader.Otc.Models.{
  OtcSignal, OtcTradeResult, OtcProfileConfig, SequenceReason, no_legs, sequence_win, sequence_loss,
  execution_failed, dry_run_done, sequence_even, sequence_stopped,
}
use divap_trader.Otc.Martingale.{
  is_win, is_even, lost_if_settled, sequence_reason, max_auto_protections_for_signal,
}
use divap_trader.Otc.Executor.Ports.{Ports, ExecState}
use divap_trader.Otc.Executor.Leg.{execute_leg}
use divap_trader.Otc.Executor.Sequence.{run_legs, goes_on, run_sequence, sequence_result}
use divap_trader.Otc.Executor.Legs.{
  IsLost, IsLadder, run_legs-IsLadder, length-run_legs, run_legs_stops,
}

IsLost-not_win : (leg : OtcTradeResult) → IsLost leg → is_win leg ≡ false
IsLost-not_win leg h = ground arith

IsLost-settled : (leg : OtcTradeResult) → IsLost leg → lost_if_settled leg ≡ true
IsLost-settled leg h = ground arith

any-is_win :
    (level : ℕ) (leg : OtcTradeResult) (legs : List OtcTradeResult)
    → IsLadder level (leg ∷ legs)
    → any is_win (leg ∷ legs) ≡ is_win (get_last leg legs)
any-is_win level leg [] h = ground arith
any-is_win level leg (next ∷ legs) h =
    rw (IsLost-not_win leg h.1) (any-is_win (level + 1) next legs h.2)

all-lost :
    (level : ℕ) (leg : OtcTradeResult) (legs : List OtcTradeResult)
    → IsLadder level (leg ∷ legs)
    → all lost_if_settled (leg ∷ legs) ≡ lost_if_settled (get_last leg legs)
all-lost level leg [] h = ground arith
all-lost level leg (next ∷ legs) h =
    rw (IsLost-settled leg h.1) (all-lost (level + 1) next legs h.2)

last-level :
    (level : ℕ) (leg : OtcTradeResult) (legs : List OtcTradeResult)
    → IsLadder level (leg ∷ legs)
    → (get_last leg legs).protection_level + 1 ≡ level + length (leg ∷ legs)
last-level level leg [] h = omega arith
last-level level leg (next ∷ legs) h = omega (arith, last-level (level + 1) next legs h.2)

-- How a sequence ended, by its last leg and by whether its legs are as many as the levels.
abbrev pub ending : OtcTradeResult → Bool → SequenceReason
ending last complete =
    if not last.executed
    then execution_failed last.reason
    else if last.dry_run
    then dry_run_done
    else if is_win last
    then sequence_win
    else if complete && lost_if_settled last
    then sequence_loss
    else if is_even last
    then sequence_even
    else sequence_stopped

-- The reason of a ladder of legs looks at its last leg and its length alone.
sequence_reason-ladder :
    (level max : ℕ) (leg : OtcTradeResult) (legs : List OtcTradeResult)
    → IsLadder level (leg ∷ legs)
    → sequence_reason (leg ∷ legs) max
      ≡ ending (get_last leg legs) (leb (max + 1) (length (leg ∷ legs)))
unfolding sequence_reason
sequence_reason-ladder level max leg legs h =
    rw (any-is_win level leg legs h, all-lost level leg legs h)

-- The reason of the legs that a loop returns.
abbrev pub ending_of : List OtcTradeResult → ℕ → SequenceReason
ending_of [] max = no_legs
ending_of (leg ∷ legs) max = ending (get_last leg legs) (leb (max + 1) (length (leg ∷ legs)))

reason-ending_of :
    (level max : ℕ) (legs : List OtcTradeResult)
    → IsLadder level legs
    → sequence_reason legs max ≡ ending_of legs max
reason-ending_of level max [] h = unfold sequence_reason in refl
reason-ending_of level max (leg ∷ legs) h = sequence_reason-ladder level max leg legs h

ending-not_loss : (last : OtcTradeResult) → ending last false ≢ sequence_loss
ending-not_loss last h = ground arith

short-not_loss :
    (max : ℕ) (legs : List OtcTradeResult)
    → length legs < max + 1
    → ending_of legs max ≢ sequence_loss
short-not_loss max [] h = λ e. cc
short-not_loss max (leg ∷ legs) h =
    let short : leb (max + 1) (length (leg ∷ legs)) ≡ false = ground arith in
    rw short (ending-not_loss (get_last leg legs))

lost-ending :
    (last : OtcTradeResult)
    → IsLost last
    → (complete : Bool) → complete ≡ true
    → ending last complete ≡ sequence_loss
lost-ending last h complete e = ground arith

stopped_at_top :
    (last : OtcTradeResult) (max : ℕ)
    → IsLost last
    → goes_on last last.protection_level max ≡ false
    → max ≤ last.protection_level
unfolding goes_on
stopped_at_top last max h e = ground arith

lost_ladder :
    (max : ℕ) (leg : OtcTradeResult) (legs : List OtcTradeResult)
    → IsLadder 0 (leg ∷ legs)
    → IsLost (get_last leg legs)
    → goes_on (get_last leg legs) (get_last leg legs).protection_level max ≡ false
    → ending_of (leg ∷ legs) max ≡ sequence_loss
lost_ladder max leg legs ladder lost stop = lost-ending (get_last leg legs) lost _ (
    le→leb _ _ (
      omega
        (arith, stopped_at_top (get_last leg legs) max lost stop, last-level 0 leg legs ladder)))

lost_legs :
    (max : ℕ) (legs : List OtcTradeResult) (d : OtcTradeResult)
    → legs ≢ []
    → IsLadder 0 legs
    → IsLost (get_last d legs)
    → goes_on (get_last d legs) (get_last d legs).protection_level max ≡ false
    → ending_of legs max ≡ sequence_loss
lost_legs max [] d ne ladder lost stop = absurd (ne refl)
lost_legs max (leg ∷ legs) d ne ladder lost stop = lost_ladder max leg legs ladder lost stop

module _ {W : Type 0} (p : Ports W) (cfg : OtcProfileConfig) where
  run_legs-ne-nil :
      (signal : OtcSignal) (max rounds level : ℕ) (s : ExecState W)
      → (run_legs p cfg signal max (suc rounds) level s).0 ≢ []
  unfolding run_legs
  run_legs-ne-nil signal max rounds level s =
      elim (Bool-cases (
        goes_on (execute_leg p cfg (record signal { protection_level = pos level }) level max s).0
          level max)) [ inl e ↦ rw e (λ q. cc) | inr e ↦ rw e (λ q. cc) ]

  run_legs-lost :
      (signal : OtcSignal) (max rounds start : ℕ) (s : ExecState W) (d : OtcTradeResult)
      → rounds + start ≡ max + 1
      → start ≡ 0
      → IsLost (get_last d (run_legs p cfg signal max rounds start s).0)
      → ending_of (run_legs p cfg signal max rounds start s).0 max ≡ sequence_loss
  run_legs-lost signal max zero start s d h e lost = absurd (omega arith)
  run_legs-lost signal max (suc rounds) (suc k) s d h e lost = absurd (omega arith)
  run_legs-lost signal max (suc rounds) zero s d h e lost =
      lost_legs max (run_legs p cfg signal max (suc rounds) zero s).0 d
        (run_legs-ne-nil signal max rounds zero s)
        (run_legs-IsLadder p cfg signal max (suc rounds) zero s) lost
        (run_legs_stops p cfg signal max rounds zero s d h)

module _ {W : Type 0} (p : Ports W) (cfg : OtcProfileConfig) (signal : OtcSignal)
    (s : ExecState W) where
  -- The reason of a sequence is that of its last leg: a failed or dry leg, a win, a loss on every level, an
  -- even result, or a stop in between; an earlier leg, having lost, plays no part.
  pub run_sequence-reason :
      let r = (run_sequence p cfg signal s).0 in
      r.reason ≡ ending_of r.legs (max_auto_protections_for_signal signal cfg.martingale)
  unfolding run_sequence sequence_result
  run_sequence-reason =
      let max = max_auto_protections_for_signal signal cfg.martingale in
      let start = pos_part signal.protection_level in
      reason-ending_of start max _ (run_legs-IsLadder p cfg signal max (max + 1 - start) start s)

  -- A sequence that starts at a protection never reports a loss, however its legs ended.
  pub run_sequence_manual :
      0 < pos_part signal.protection_level → (run_sequence p cfg signal s).0.reason ≢ sequence_loss
  unfolding run_sequence sequence_result
  run_sequence_manual h =
      let max = max_auto_protections_for_signal signal cfg.martingale in
      let start = pos_part signal.protection_level in
      rw (run_sequence-reason) (
        short-not_loss max (run_sequence p cfg signal s).0.legs
          (omega (arith, length-run_legs p cfg signal max (max + 1 - start) start s)))

  -- A sequence from the entry on whose last leg was lost reports a loss: it has used every level.
  pub run_sequence_lost :
      (d : OtcTradeResult)
      → pos_part signal.protection_level ≡ 0
      → IsLost (get_last d (run_sequence p cfg signal s).0.legs)
      → (run_sequence p cfg signal s).0.reason ≡ sequence_loss
  unfolding run_sequence sequence_result
  run_sequence_lost d e lost =
      let max = max_auto_protections_for_signal signal cfg.martingale in
      let start = pos_part signal.protection_level in
      rw run_sequence-reason
        (run_legs-lost p cfg signal max (max + 1 - start) start s d (omega arith) e lost)
