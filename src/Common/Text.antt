-- ===== src/Common/Text.antt =====
-- `to_string` of an unsigned integer: its decimal digits. A `u128` has 39 digits at most.
use Prim.Native.Nat.{ℕ, zero, suc, ◌/◌, ◌%◌}
use Prim.Native.String.{String, ◌++◌}
use juno_alpha_proxy_contrac.Common.Tests.{ltb, eqb, if◌then◌else◌}

digit : ℕ → String
digit d =
    if eqb d 0
    then "0"
    else if eqb d 1
    then "1"
    else if eqb d 2
    then "2"
    else if eqb d 3
    then "3"
    else if eqb d 4
    then "4"
    else if eqb d 5
    then "5"
    else if eqb d 6
    then "6"
    else if eqb d 7
    then "7"
    else if eqb d 8
    then "8"
    else "9"

decimal : ℕ → ℕ → String
decimal zero n = ""
decimal (suc f) n =
    let more = decimal f (n / 10) in if ltb n 10 then digit n else more ++ digit (n % 10)

unfoldable pub to_string : ℕ → String
unfolding digit decimal
to_string n = decimal 39 n
