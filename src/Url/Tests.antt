-- ===== src/Url/Tests.antt =====
-- Runs of the URL decoder and encoder, and the theorems at concrete texts.
use cppsp_ng.Base.{ℕ, ◌≤◌, ◌≡◌, refl, some, [], ◌++◌, length, arith}
use cppsp_ng.Base.Bytes.{Bytes, All, IsByte, codes}
use cppsp_ng.Base.Search.{memchr}
use cppsp_ng.Url.Hex.{hex_byte, high_digit, low_digit}
use cppsp_ng.Url.Defs.{do_url_decode, url_decode, url_encode}
use cppsp_ng.Url.Decode.{decoded, do_url_decode-decoded, url_decode_bounds}
use cppsp_ng.Url.Encode.{do_url_decode-url_encode}

abbrev coded : Bytes
coded = codes "a+%42%4"

abbrev plain : Bytes
plain = codes "a /z"

coded-IsByte : All IsByte coded
coded-IsByte = ground arith

plain-IsByte : All IsByte plain
plain-IsByte = ground arith

decode_coded : do_url_decode coded ≡ some (codes "a B%4")
unfolding do_url_decode memchr hex_byte
decode_coded = refl

encode_plain : url_encode plain [] ≡ (8, codes "a%20%2Fz")
unfolding url_encode high_digit low_digit
encode_plain = refl

do_url_decode-decoded_example : do_url_decode coded ≡ some (decoded coded)
do_url_decode-decoded_example = do_url_decode-decoded coded

url_decode_bounds_example :
    (n : ℕ) × (t : Bytes) × (url_decode coded (codes "x") ≡ some (n, codes "x" ++ t))
    × (n ≡ length t)
    × (length t ≤ length coded)
    × All IsByte t
url_decode_bounds_example = url_decode_bounds coded (codes "x") coded-IsByte

do_url_decode-url_encode_example : do_url_decode ((url_encode plain []).1) ≡ some plain
do_url_decode-url_encode_example = do_url_decode-url_encode plain plain-IsByte
