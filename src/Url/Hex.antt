-- ===== src/Url/Hex.antt =====
-- `hexCharToInt` and `intToHexChar` of stringutils.C, on bytes: arithmetic on `char` wraps at 256.
use cppsp_ng.Base.{
  ℕ, ◌+◌, ◌-◌, ◌*◌, ◌/◌, ◌%◌, ◌^◌, ◌<◌, ◌≡◌, refl, true, bit_or, bit_and, ltb, leb, ◌==◌, ==_iff,
  if◌then◌else◌, arith,
}
use cppsp_ng.Base.Bytes.{holds_below, holds_below-lt}

unfoldable pub hex_char_to_int : ℕ → ℕ
hex_char_to_int ch =
    if leb ch b'9'
    then (ch + 256 - b'0') % 256
    else if leb ch b'Z'
    then (ch + 256 - b'A' + 10) % 256
    else (ch + 256 - b'a' + 10) % 256

unfoldable pub int_to_hex_char : ℕ → ℕ
int_to_hex_char i = if ltb i 10 then (i + b'0') % 256 else (i + 256 - 10 + b'A') % 256

-- `*c = hexCharToInt(next[1]) << 4 | hexCharToInt(next[2])`, stored into a `char`.
unfoldable pub hex_byte : ℕ → ℕ → ℕ
unfolding hex_char_to_int
hex_byte hi lo = bit_or (hex_char_to_int hi * 16) (hex_char_to_int lo) % 256

-- The two digits of a byte: those of `ch >> 4` and of `ch & 0xF`.
unfoldable pub high_digit : ℕ → ℕ
unfolding int_to_hex_char
high_digit ch = int_to_hex_char (ch / 2 ^ 4)

unfoldable pub low_digit : ℕ → ℕ
unfolding int_to_hex_char
low_digit ch = int_to_hex_char (bit_and ch 0xf)

digits_table : holds_below (λ x. hex_byte (high_digit x) (low_digit x) == x) 256 ≡ true
unfolding holds_below hex_byte high_digit low_digit
digits_table = refl

-- Reading the two hexadecimal digits of a byte gives the byte.
pub hex_byte-digits : (x : ℕ) → x < 256 → hex_byte (high_digit x) (low_digit x) ≡ x
hex_byte-digits x h = (==_iff _ x).0 (holds_below-lt _ 256 x h digits_table)

pub hex_byte-lt : (hi lo : ℕ) → hex_byte hi lo < 256
unfolding hex_byte
hex_byte-lt hi lo = omega arith
