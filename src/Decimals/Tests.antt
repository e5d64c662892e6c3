-- ===== src/Decimals/Tests.antt =====
-- Runs of the decimal operations at inputs that the decimal module's documentation shows.
use divap_trader.Base.{◌≡◌, refl, true}
use divap_trader.Base.Int.{negsuc}
use divap_trader.Decimals.Defs.{whole, fixed, ◌⊕◌, quantize, quotient, lt}

-- 1.5 + 0.25
add_runs : fixed 15 1 ⊕ fixed 25 2 ≡ fixed 175 2
unfolding ◌⊕◌
add_runs = refl

-- 0.125 and 0.375 lie half way between two cents.
quantize_runs : quantize 2 (fixed 125 3) ≡ fixed 12 2
unfolding quantize
quantize_runs = refl

quantize_runs_up :
    quantize 2 (record { num = negsuc 374; scale = 3 }) ≡ record { num = negsuc 37; scale = 2 }
unfolding quantize
quantize_runs_up = refl

-- 2 / 3
quotient_runs : quotient (whole 2) (whole 3) ≡ fixed 6666666666666666666666666667 28
unfolding quotient
quotient_runs = refl

eighth_runs : quantize 3 (quotient (whole 1) (whole 8)) ≡ fixed 125 3
unfolding quotient quantize
eighth_runs = refl

lt_runs : lt (fixed 100 2) (fixed 11 1) ≡ true
unfolding lt
lt_runs = refl
