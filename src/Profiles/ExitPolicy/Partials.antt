-- ===== src/Profiles/ExitPolicy/Partials.antt =====
-- The partial closes of a position.
use divap_trader.Base.{ℕ, zero, suc, ◌+◌, ◌≤◌, ◌≡◌, true, arith}
use divap_trader.Base.Int.{◌-ℤ◌}
use divap_trader.Decimals.{Decimal, whole, ◌⊖◌, is_zero, le, quantize_by, round_down, quotient}
use divap_trader.Decimals.Order.{minimum-le_right, le_refl}
use divap_trader.Profiles.ExitPolicy.Defs.{partial_close_quantity}

-- What remains after n partials, each filled entirely.
abbrev pub remaining_after : Decimal → ℕ → ℕ → Decimal
remaining_after original total zero = original
remaining_after original total (suc n) =
    let remaining = remaining_after original total n in
    remaining ⊖ partial_close_quantity original remaining n total

⊖_self : (a : Decimal) → is_zero (a ⊖ a) ≡ true
unfolding ◌⊖◌ ◌-ℤ◌
⊖_self a = ground arith

last_partial :
    (original remaining : Decimal) (taken total : ℕ)
    → total ≤ taken + 1
    → partial_close_quantity original remaining taken total ≡ remaining
unfolding partial_close_quantity
last_partial original remaining taken total h = ground arith

partial_le :
    (original remaining : Decimal) (taken total : ℕ)
    → le (partial_close_quantity original remaining taken total) remaining ≡ true
unfolding partial_close_quantity
partial_le original remaining taken total = ground (
  arith,
  le_refl remaining,
  minimum-le_right (quantize_by round_down 8 (quotient original (whole total))) remaining,
)

-- No partial closes more than what remains, and when every partial is filled entirely, the last one leaves
-- nothing of the position, whatever the rounding of the earlier ones.
pub partial_close_quantity_all :
    (original remaining : Decimal) (taken total n : ℕ)
    → (le (partial_close_quantity original remaining taken total) remaining ≡ true)
      × (is_zero (remaining_after original (suc n) (suc n)) ≡ true)
partial_close_quantity_all original remaining taken total n =
    let left = remaining_after original (suc n) n in
    (
      partial_le original remaining taken total,
      rw (last_partial original left n (suc n) (omega arith)) (⊖_self left),
    )
