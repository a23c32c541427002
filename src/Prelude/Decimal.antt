-- ===== src/Prelude/Decimal.antt =====
-- `format!` of numbers: `{}` and `{:03}`.
pub mod Read
use Prim.Native.Nat.{ℕ, zero, suc, ◌/◌, ◌%◌}
use Prim.Native.String.{String, ◌++◌}
use mathlib.Core.Path.{◌≡◌, refl}
use young_agent.Prelude.Tests.{ltb, eqb, if◌then◌else◌}

abbrev digit : ℕ → String
digit n =
    if eqb n 0
    then "0"
    else if eqb n 1
    then "1"
    else if eqb n 2
    then "2"
    else if eqb n 3
    then "3"
    else if eqb n 4
    then "4"
    else if eqb n 5
    then "5"
    else if eqb n 6
    then "6"
    else if eqb n 7
    then "7"
    else if eqb n 8
    then "8"
    else "9"

-- A `usize` has at most 20 digits, so fuel 20 is enough.
unfoldable decimal_in : ℕ → ℕ → String
decimal_in zero n = digit (n % 10)
decimal_in (suc fuel) n =
    let front = decimal_in fuel (n / 10) in if ltb n 10 then digit n else front ++ digit (n % 10)

unfoldable pub decimal : ℕ → String
unfolding decimal_in
decimal n = decimal_in 20 n

unfoldable pub decimal_03 : ℕ → String
unfolding decimal
decimal_03 n =
    if ltb n 10 then "00" ++ decimal n else if ltb n 100 then "0" ++ decimal n else decimal n

tests : (decimal_03 7 ++ decimal_03 42 ++ decimal_03 128 ++ decimal_03 1234) ≡ "0070421281234"
unfolding decimal_03
tests = refl
