-- ===== src/Base/Text.antt =====
-- The decimal text of an integer, as `str` and f-strings print it.
use Prim.Native.String.{◌++◌ as append}
use divap_trader.Base.{ℕ, zero, suc, ◌+◌, ◌/◌, ◌%◌, String, true, false, ltb, ◌==◌, if◌then◌else◌}
use divap_trader.Base.Int.{ℤ, pos, negsuc}

digit : ℕ → String
digit n =
    if n == 0
    then "0"
    else if n == 1
    then "1"
    else if n == 2
    then "2"
    else if n == 3
    then "3"
    else if n == 4
    then "4"
    else if n == 5
    then "5"
    else if n == 6
    then "6"
    else if n == 7
    then "7"
    else if n == 8
    then "8"
    else "9"

show_from : ℕ → ℕ → String
unfolding digit
show_from zero n = digit n
show_from (suc f) n = elim (ltb n 10) [
  | true ↦ digit n
  | false ↦ append (show_from f (n / 10)) (digit (n % 10))
]

-- The fuel is the number itself, which has no more digits than that.
unfoldable pub show : ℤ → String
unfolding show_from
show (pos n) = show_from n n
show (negsuc n) = append "-" (show_from (n + 1) (n + 1))

abbrev pub join : String → String → String
join = append
