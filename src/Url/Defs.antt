-- ===== src/Url/Defs.antt =====
-- `doURLDecode`, `urlDecodeImpl` and `urlEncodeImpl` of stringutils.C. An input pointer with its end is
-- the bytes between them; an output string is the bytes that it holds.
use mathlib.Core.List.{map}
use cppsp_ng.Base.{
  ℕ, zero, suc, ◌+◌, ◌≡◌, refl, Bool, true, false, ◌&&◌, ◌||◌, Option, none, some, [], ◌∷◌, ◌++◌,
  leb, ◌==◌, if◌then◌else◌, take, drop, length, get_or,
}
use cppsp_ng.Base.Bytes.{Bytes, codes}
use cppsp_ng.Base.Search.{memchr}
use cppsp_ng.Url.Hex.{hex_byte, high_digit, low_digit}

-- A byte that `_urldecode_memcpy` copies.
unfoldable pub plus_to_space : ℕ → ℕ
plus_to_space c = if c == b'+' then 32 else c

unfoldable pub urldecode_memcpy : Bytes → Bytes
unfolding plus_to_space
urldecode_memcpy s = map plus_to_space s

-- One round of the loop of `doURLDecode`, at `s` from `ptr` to `end`, with the index of the next `%`;
-- `again` is the next round of the loop, given `ptr` and what has been written.
unfoldable pub decode_at : (Bytes → Bytes → Option Bytes) → Bytes → Bytes → Option ℕ → Option Bytes
unfolding urldecode_memcpy
decode_at again s out none = some (out ++ urldecode_memcpy s)
decode_at again s out (some i) =
    let written = out ++ urldecode_memcpy (take i s) in
    if leb (length s) (i + 2)
    then some (written ++ urldecode_memcpy (drop i s))
    else again (drop (i + 3) s) (written ++ hex_byte (get_or s (i + 1) 0) (get_or s (i + 2) 0) ∷ [])

-- `while (ptr < end)`, with fuel; `none` means that the fuel ran out.
unfoldable pub decode_loop : ℕ → Bytes → Bytes → Option Bytes
unfolding decode_at
decode_loop zero s out = none
decode_loop (suc fuel) [] out = some out
decode_loop (suc fuel) (c ∷ s) out = decode_at (decode_loop fuel) (c ∷ s) out (memchr b'%' (c ∷ s))

-- What `doURLDecode` writes to `out`; the number that it returns is the length of that.
unfoldable pub do_url_decode : Bytes → Option Bytes
unfolding decode_loop
do_url_decode s = decode_loop (length s + 1) s []

-- `urlDecodeImpl`: the result, and the string behind the call.
unfoldable pub url_decode : Bytes → Bytes → Option (ℕ × Bytes)
unfolding do_url_decode
url_decode s out = elim (do_url_decode s) [
  | none ↦ none
  | some written ↦ some (length written, out ++ written)
]

-- The bytes that `urlEncodeImpl` copies as they are.
unfoldable pub is_plain : ℕ → Bool
is_plain c =
    (leb 48 c && leb c 57)
    || (leb 65 c && leb c 90)
    || (leb 97 c && leb c 122)
    || (c == b'~' || c == b'!' || c == b'*' || c == b'(' || c == b')' || c == 39)

abbrev pub escape : ℕ → Bytes
escape c = b'%' ∷ high_digit c ∷ low_digit c ∷ []

-- `if (i > last_i) out.append(in + last_i, i - last_i)`: `pending` holds the bytes from `last_i` on.
abbrev pub flush : Bytes → Bytes → Bytes
flush [] out = out
flush (c ∷ s) out = out ++ (c ∷ s)

-- The loop of `urlEncodeImpl`, with `pending` as above and the counter `asdf`. The result is the counter
-- and the string.
unfoldable pub encode_loop : Bytes → Bytes → ℕ → Bytes → ℕ × Bytes
unfolding is_plain
encode_loop [] pending extra out = (extra, flush pending out)
encode_loop (c ∷ s) pending extra out = elim (is_plain c) [
  | true ↦ encode_loop s (pending ++ c ∷ []) extra out
  | false ↦ encode_loop s [] (extra + 2) (flush pending out ++ escape c)
]

unfoldable pub url_encode : Bytes → Bytes → ℕ × Bytes
unfolding encode_loop
url_encode s out = let (extra, out') = encode_loop s [] 0 out in (length s + extra, out')

decode_text : url_decode (codes "a%20b+c%4") (codes ">") ≡ some (7, codes ">a b c%4")
unfolding url_decode memchr hex_byte
decode_text = refl

encode_text : url_encode (codes "a b/~") [] ≡ (9, codes "a%20b%2F~")
unfolding url_encode high_digit low_digit
encode_text = refl
