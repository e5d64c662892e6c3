-- ===== src/Otc/Martingale/Defs.antt =====
-- The functions of src/otc/martingale.py.
use divap_trader.Base.{
  ℕ, suc, ◌+◌, Bool, true, false, none, some, List, [], ◌∷◌, ◌&&◌, not, leb, length, get_last, any,
  all, if◌then◌else◌, is_some,
}
use divap_trader.Base.Int.{ℤ, pos, negsuc, pos_part, leb_ℤ, ltb_ℤ}
use divap_trader.Decimals.{Decimal, whole, to_cents, ◌⊗◌, power, quotient, is_pos, is_neg, is_zero}
use divap_trader.Otc.Models.{
  OtcMartingale, OtcSignal, OtcTradeResult, SequenceReason, no_legs, dry_run_done, sequence_win,
  sequence_loss, sequence_even, sequence_stopped, execution_failed,
}

-- min(a, b)
unfoldable pub min_ℤ : ℤ → ℤ → ℤ
min_ℤ a b = if ltb_ℤ b a then b else a

-- multiplier ** level; a negative exponent is the reciprocal of the power.
unfoldable pub power_ℤ : Decimal → ℤ → Decimal
power_ℤ m (pos n) = power m n
power_ℤ m (negsuc n) = quotient (whole 1) (power m (suc n))

unfoldable pub stake_for_level : Decimal → OtcMartingale → ℤ → Decimal
unfolding min_ℤ power_ℤ
stake_for_level base mg level =
    if leb_ℤ level (pos 0)
    then base
    else to_cents (base ⊗ power_ℤ mg.multiplier (min_ℤ level mg.max_protections))

-- max(0, n)
abbrev pub at_least_zero : ℤ → ℕ
at_least_zero = pos_part

unfoldable pub max_auto_protections_for_signal : OtcSignal → OtcMartingale → ℕ
max_auto_protections_for_signal signal mg = elim (signal.max_auto_protections) [
  | some n ↦ at_least_zero n
  | none ↦ if not mg.enabled then 0 else at_least_zero mg.max_protections
]

-- `pnl_usd is not None and pnl_usd < 0`, and the same for `> 0`.
abbrev pub is_loss : OtcTradeResult → Bool
is_loss leg = elim (leg.pnl_usd) [ none ↦ false | some p ↦ is_neg p ]

abbrev pub is_win : OtcTradeResult → Bool
is_win leg = elim (leg.pnl_usd) [ none ↦ false | some p ↦ is_pos p ]

abbrev pub is_even : OtcTradeResult → Bool
is_even leg = elim (leg.pnl_usd) [ none ↦ false | some p ↦ is_zero p ]

-- `is_loss(leg)` of the legs whose result is known.
abbrev pub lost_if_settled : OtcTradeResult → Bool
lost_if_settled leg = if is_some leg.pnl_usd then is_loss leg else true

-- What `sequence_reason` does with the legs, the first of them apart.
unfoldable pub reason_of : OtcTradeResult → List OtcTradeResult → ℕ → SequenceReason
reason_of leg legs max_protections =
    let last = get_last leg legs in
    if not last.executed
    then execution_failed last.reason
    else if last.dry_run
    then dry_run_done
    else if any is_win (leg ∷ legs)
    then sequence_win
    else if leb (max_protections + 1) (length (leg ∷ legs)) && all lost_if_settled (leg ∷ legs)
    then sequence_loss
    else if is_even last
    then sequence_even
    else sequence_stopped

unfoldable pub sequence_reason : List OtcTradeResult → ℕ → SequenceReason
unfolding reason_of
sequence_reason [] max_protections = no_legs
sequence_reason (leg ∷ legs) max_protections = reason_of leg legs max_protections
