-- ===== src/Base/Memory.antt =====
-- Memory as a byte for each address, the spans of bytes in it, and the searches of the C library.
use Prim.Native.Nat.{ℕ, zero, suc, ◌+◌, ◌<◌}
use mathlib.Core.Path.{◌≡◌}
use mathlib.Core.Bool.{Bool, true, ◌&&◌}
use native.Mathlib.Omega.{arith}
use mathlib.Core.List.{[], ◌∷◌}
use mathlib.Core.Option.{Option, none, some}
use cppsp_ng.Base.Tests.{ltb, leb, ◌==◌, if◌then◌else◌}
use cppsp_ng.Base.Bytes.{Bytes}

abbrev pub Memory : Type 0
Memory = ℕ → ℕ

-- The `n` bytes from `b` on.
abbrev pub span : Memory → ℕ → ℕ → Bytes
span mem b zero = []
span mem b (suc n) = mem b ∷ span mem (suc b) n

-- A byte written at `a`.
unfoldable pub poke : Memory → ℕ → ℕ → Memory
poke mem a v i = if i == a then v else mem i

-- Bytes written from `a` on.
unfoldable pub fill : Memory → ℕ → Bytes → Memory
unfolding poke
fill mem a [] = mem
fill mem a (v ∷ vs) = fill (poke mem a v) (suc a) vs

-- `memcpy` and `memmove` of `n` bytes from `b` in `from` to the start of `to`.
unfoldable pub copy_to_start : Memory → Memory → ℕ → ℕ → Memory
copy_to_start to from b n i = if ltb i n then from (b + i) else to i

-- `memchr` and, for the two bytes of a line end, `memmem` among the `n` bytes from `b` on: the address.
unfoldable pub find_byte : Memory → ℕ → ℕ → ℕ → Option ℕ
find_byte mem c b zero = none
find_byte mem c b (suc n) = if mem b == c then some b else find_byte mem c (suc b) n

unfoldable pub find_line_end : Memory → ℕ → ℕ → Option ℕ
find_line_end mem b zero = none
find_line_end mem b (suc n) =
    if ltb 0 n && (mem b == 13 && mem (suc b) == 10) then some b else find_line_end mem (suc b) n

-- The bytes before the first NUL among the `n` from `b` on.
unfoldable pub c_string : Memory → ℕ → ℕ → Bytes
c_string mem b zero = []
c_string mem b (suc n) = if mem b == 0 then [] else mem b ∷ c_string mem (suc b) n

-- `isspace` of the C library, in the "C" locale.
unfoldable pub isspace : ℕ → Bool
isspace c = if c == 32 then true else leb 9 c && leb c 13

-- What stands in the target of a copy.
pub copied :
    (to from : Memory) (b n i : ℕ) → i < n → copy_to_start to from b n (0 + i) ≡ from (b + i)
unfolding copy_to_start
copied to from b n i lt =
    let e : 0 + i ≡ i = omega arith in let t : ltb i n ≡ true = ground arith in rw (e, t)
