-- ===== src/Common/Words.antt =====
-- Go's `uint64`: numbers below `2 ^ 64`, whose sums and differences wrap around.
use Prim.Native.Nat.{ℕ, ◌+◌, ◌-◌, ◌%◌, ◌^◌, ◌<◌}
use mathlib.Core.Path.{◌≡◌}
use native.Mathlib.Omega.{arith}

abbrev pub u64_mod : ℕ
u64_mod = 2 ^ 64

abbrev pub u64 : ℕ → ℕ
u64 n = n % u64_mod

-- `a + b` and `a - b` on `uint64`.
abbrev pub add64 : ℕ → ℕ → ℕ
add64 a b = u64 (a + b)

abbrev pub sub64 : ℕ → ℕ → ℕ
sub64 a b = u64 (a + u64_mod - b)

-- A counter that has advanced by `d`, wrapping at most once, shows the difference `d`.
pub sub64-add64 : (a d : ℕ) → a < u64_mod → d < u64_mod → sub64 (add64 a d) a ≡ d
sub64-add64 a d ha hd = omega arith
