-- ===== src/Base/Xor.antt =====
-- Exclusive or on bytes.
use Prim.Native.Nat.{ℕ, ◌<◌, bit_xor}
use mathlib.Core.Bool.{true}
use mathlib.Core.Path.{◌≡◌, refl}
use cppsp_ng.Base.Tests.{◌==◌, ==_iff}
use cppsp_ng.Base.Bytes.{holds_below, holds_below-lt}

xor_table : holds_below (λ x. holds_below (λ k. bit_xor (bit_xor x k) k == x) 256) 256 ≡ true
unfolding holds_below
xor_table = refl

-- The same mask applied twice gives the byte back.
pub bit_xor_twice : (x k : ℕ) → x < 256 → k < 256 → bit_xor (bit_xor x k) k ≡ x
bit_xor_twice x k hx hk =
    (==_iff _ x).0 (holds_below-lt _ 256 k hk (holds_below-lt _ 256 x hx xor_table))
