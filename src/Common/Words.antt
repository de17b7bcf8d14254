-- ===== src/Common/Words.antt =====
-- Unsigned 64-bit numbers.
use Prim.Native.Nat.{ℕ, ◌+◌, ◌%◌, min}

abbrev pub u64_max : ℕ
u64_max = 18446744073709551615

-- `saturating_add`.
abbrev pub saturating_add : ℕ → ℕ → ℕ
saturating_add a b = min (a + b) u64_max

-- `a + b` on `u64`, without overflow checks.
abbrev pub add_u64 : ℕ → ℕ → ℕ
add_u64 a b = (a + b) % 18446744073709551616
