-- ===== src/Decimal/Defs.antt =====
-- `itoa64`, `itoa1` and `itoa2`. The logarithm of the C library, rounded down, is the parameter `log10`.
use cppsp_ng.Base.{ℕ, zero, suc, ◌+◌, ◌-◌, ◌/◌, ◌%◌, Option, none, some, ◌==◌, if◌then◌else◌}
use cppsp_ng.Base.Memory.{Memory, poke}
use cppsp_ng.Base.Cursor.{Cursor}

-- `do { *--p = digit[i % 10]; i = i / 10; } while (i);` with fuel; `none` means that the fuel ran out.
unfoldable pub digit_loop : ℕ → ℕ → ℕ → Memory → Option Memory
digit_loop zero i p mem = none
digit_loop (suc fuel) i p mem =
    let written = poke mem (p - 1) (b'0' + i % 10) in
    let rest = digit_loop fuel (i / 10) (p - 1) written in
    if i / 10 == 0 then some written else rest

module _ (log10 : ℕ → ℕ) where
  abbrev pub digit_count : ℕ → ℕ
  digit_count i = (if i == 0 then 0 else log10 i) + 1

  -- The number that is returned is how far the cursor has moved.
  unfoldable pub itoa64 : ℕ → Cursor → Option Cursor
  unfolding digit_loop
  itoa64 i c =
      let p = c.at + digit_count i in
      elim (digit_loop (suc i) i p (poke c.mem p 0)) [
        | none ↦ none
        | some mem ↦ some (record { mem = mem; at = p })
      ]

  -- `itoa1` is the same function of an `int`.
  unfoldable pub itoa1 : ℕ → Cursor → Option Cursor
  unfolding itoa64
  itoa1 i c = itoa64 i c

-- The loop of `itoa2`, in which `x` goes down from `n - 1`, and `itoa2`.
unfoldable pub pad_loop : ℕ → ℕ → ℕ → Memory → Memory
pad_loop zero i b mem = mem
pad_loop (suc x) i b mem = pad_loop x (i / 10) b (poke mem (b + x) (b'0' + i % 10))

unfoldable pub itoa2 : ℕ → ℕ → Cursor → Cursor
unfolding pad_loop
itoa2 i d c = record { mem = pad_loop d i c.at c.mem; at = c.at + d }
