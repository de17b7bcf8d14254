-- ===== src/Common/Digits.antt =====
-- Digits, and numbers in decimal.
use Prim.Native.Nat.{ℕ, zero, suc, ◌+◌, ◌/◌, ◌%◌}
use Prim.Native.String.{String, ◌++◌}
use mathlib.Core.List.{List, [], ◌∷◌}
use hacp.Common.Tests.{ltb, if◌then◌else◌}
use hacp.Common.Lists.{get_or}

abbrev pub hex_digits : List String
hex_digits =
    "0" ∷ "1" ∷ "2" ∷ "3" ∷ "4" ∷ "5" ∷ "6" ∷ "7" ∷ "8" ∷ "9" ∷ "a" ∷ "b" ∷ "c" ∷ "d" ∷ "e" ∷ "f"
    ∷ []

-- A lowercase hexadecimal digit, `0` out of range.
unfoldable pub hex_digit : ℕ → String
hex_digit n = get_or hex_digits n "0"

-- `n` in decimal, for `format!`; one digit is written for each unit of fuel.
unfoldable pub decimal_from : ℕ → ℕ → String → String
decimal_from zero n acc = acc
decimal_from (suc fuel) n acc =
    let text = hex_digit (n % 10) ++ acc in
    let rest = decimal_from fuel (n / 10) text in if ltb n 10 then text else rest

unfoldable pub decimal : ℕ → String
unfolding decimal_from hex_digit
decimal n = decimal_from (n + 1) n ""
