-- ===== src/Base/Words.antt =====
-- The machine words of the 16-bit target: `unsigned char`, `unsigned` (16 bits) and
-- `unsigned long` (32 bits), with their wrap-around written out.
use Prim.Native.Nat.{ℕ, ◌+◌, ◌-◌, ◌/◌, ◌%◌, ◌^◌, ◌<◌}
use mathlib.Core.Path.{◌≡◌}
use mathlib.Core.Bool.{Bool}
use native.Mathlib.Omega.{arith}
use dossh.Base.Tests.{ltb, ◌==◌}

abbrev pub u8 : ℕ → ℕ
u8 n = n % 2 ^ 8

abbrev pub u16 : ℕ → ℕ
u16 n = n % 2 ^ 16

abbrev pub u32 : ℕ → ℕ
u32 n = n % 2 ^ 32

-- `a - b` of two `unsigned`, and of two `unsigned long`.
abbrev pub sub16 : ℕ → ℕ → ℕ
sub16 a b = (a + 2 ^ 16 - b) % 2 ^ 16

abbrev pub sub32 : ℕ → ℕ → ℕ
sub32 a b = (a + 2 ^ 32 - b) % 2 ^ 32

-- `x & (2 ^ k - 1)` and `x >> k`.
abbrev pub low_bits : ℕ → ℕ → ℕ
low_bits x k = x % 2 ^ k

abbrev pub shr : ℕ → ℕ → ℕ
shr x k = x / 2 ^ k

-- The bit `k` of a flags byte: `x & (1 << k)`.
abbrev pub has_bit : ℕ → ℕ → Bool
has_bit x k = shr x k % 2 == 1

-- `(long)x < 0` for an `unsigned long` x.
abbrev pub is_negative : ℕ → Bool
is_negative x = ltb (2 ^ 31 - 1) x

-- Two sums that agree modulo the word size are the same word.
pub sub32-add : (a b : ℕ) → a < 2 ^ 32 → b < 2 ^ 32 → u32 (sub32 a b + b) ≡ a
sub32-add a b ha hb = omega arith
