-- ===== src/Date/Words.antt =====
-- Words of four characters on a little-endian machine: `_s4`, `EN`, `CTW`, `SHL` and `itoa4`.
use cppsp_ng.Base.{ℕ, ◌+◌, ◌-◌, ◌*◌, ◌/◌, ◌%◌, ◌^◌, [], ◌∷◌, bit_and, bit_or, get_or}
use cppsp_ng.Base.Bytes.{Bytes}

-- `operator "" _s4` on a literal of four characters.
unfoldable pub s4 : Bytes → ℕ
s4 str =
    bit_or (get_or str 3 0 * 2 ^ 24)
      (bit_or (get_or str 2 0 * 2 ^ 16) (bit_or (get_or str 1 0 * 2 ^ 8) (get_or str 0 0)))

unfoldable pub en : ℕ → ℕ
en val =
    bit_or (val * 2 ^ 24 % 2 ^ 32)
      (bit_or (bit_and val 0xff00 * 2 ^ 8) (bit_or (bit_and val 0xff0000 / 2 ^ 8) (val / 2 ^ 24)))

unfoldable pub ctw : ℕ → ℕ → ℕ
ctw ch pos = ch * 2 ^ ((3 - pos) * 8) % 2 ^ 32

unfoldable pub shl : ℕ → ℕ → ℕ
shl s chars = s / 2 ^ (chars * 8)

unfoldable pub itoa4 : ℕ → ℕ
itoa4 x =
    let a = x / 1000 % 10 in
    let b = x / 100 % 10 in
    let c = x / 10 % 10 in
    let d = x % 10 in
    bit_or
      (bit_or (bit_or (bit_or 0 ((d + b'0') * 2 ^ 24)) ((c + b'0') * 2 ^ 16)) ((b + b'0') * 2 ^ 8))
      (a + b'0')

-- The bytes of a word in memory.
unfoldable pub store32 : ℕ → Bytes
store32 x = x % 256 ∷ x / 2 ^ 8 % 256 ∷ x / 2 ^ 16 % 256 ∷ x / 2 ^ 24 % 256 ∷ []
