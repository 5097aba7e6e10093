-- ===== src/Base/Words.antt =====
-- Machine words: `uint64` values are natural numbers below 2 ^ 64, and wrap by `%`.
use Prim.Native.Nat.{ℕ, ◌+◌, ◌-◌, ◌%◌}
use mathlib.Core.Bool.{Bool}
use os_simulator.Base.Tests.{leb}

abbrev pub u64_mod : ℕ
u64_mod = 18446744073709551616

-- The first value that `int(x)` reads as a negative number.
abbrev pub int_min : ℕ
int_min = 9223372036854775808

abbrev pub u64 : ℕ → ℕ
u64 n = n % u64_mod

abbrev pub sub64 : ℕ → ℕ → ℕ
sub64 a b = (a + u64_mod - b) % u64_mod

-- `int(x) < 0` for an `x` of type `uint64`.
abbrev pub is_negative : ℕ → Bool
is_negative x = leb int_min x
