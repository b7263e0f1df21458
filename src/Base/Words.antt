-- ===== src/Base/Words.antt =====
-- Machine words as numbers below their modulus. An `i64` is its two's complement pattern.
use Prim.Native.Nat.{ℕ, ◌+◌, ◌-◌, ◌%◌}
use mathlib.Core.Bool.{Bool, ◌||◌}
use cursedelete.Base.Tests.{◌==◌, leb}

abbrev pub u64_mod : ℕ
u64_mod = 18446744073709551616

abbrev pub i64_limit : ℕ
i64_limit = 9223372036854775808

abbrev pub add64 : ℕ → ℕ → ℕ
add64 a b = (a + b) % u64_mod

abbrev pub sub64 : ℕ → ℕ → ℕ
sub64 a b = (a + u64_mod - b) % u64_mod

-- `x <= 0` and `x > 0` of an `i64` pattern.
abbrev pub i64_nonpos : ℕ → Bool
i64_nonpos x = (x == 0) || leb i64_limit x
