-- ===== src/Base/Signed.antt =====
-- An `int` by its 32 bits, as a number below 2^32: doubling wraps around, and a number from 2^31 on is negative.
use Prim.Native.Nat.{ℕ, ◌+◌, ◌*◌, ◌%◌, ◌^◌, ◌<◌}
use mathlib.Core.Bool.{Bool}
use mathlib.Core.Path.{◌≡◌}
use native.Mathlib.Omega.{arith}
use cppsp_ng.Base.Tests.{ltb}

-- `i * 2`.
unfoldable pub twice : ℕ → ℕ
twice i = i * 2 % 2 ^ 32

-- `i < j`.
unfoldable pub int_less : ℕ → ℕ → Bool
int_less i j = ltb ((i + 2 ^ 31) % 2 ^ 32) ((j + 2 ^ 31) % 2 ^ 32)

pub twice_small : (i : ℕ) → i < 2 ^ 31 → twice i ≡ i * 2
unfolding twice
twice_small i h = omega arith

pub int_less_small : (i j : ℕ) → i < 2 ^ 31 → j < 2 ^ 31 → int_less i j ≡ ltb i j
unfolding int_less
int_less_small i j h k = ground arith
