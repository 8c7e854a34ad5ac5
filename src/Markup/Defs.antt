-- ===== src/Markup/Defs.antt =====
-- `htmlEscapeImpl`, `htmlAttributeEscapeImpl` and `jsEscapeImpl` of stringutils.C. The first and the
-- last count the bytes that they will write in an `int`, reserve that many and then write; the counter
-- wraps at 2 ^ 32. Each returns its number and the output string behind the call.
use cppsp_ng.Base.{
  ℕ, ◌+◌, ◌-◌, ◌%◌, ◌^◌, ◌≡◌, refl, Bool, ◌&&◌, ◌||◌, Option, none, some, [], ◌∷◌, ◌++◌, ltb, leb,
  ◌==◌, if◌then◌else◌, length,
}
use cppsp_ng.Base.Bytes.{Bytes, codes}
use cppsp_ng.Url.Hex.{high_digit, low_digit}
use cppsp_ng.Url.Defs.{flush}

-- Writing into the `sz` bytes that have been reserved behind `out`; `none` is a write out of bounds, a byte
-- that is never written, or a length of the output that is no `int`.
abbrev pub reserved : ℕ → Bytes → Bytes → Option (ℕ × Bytes)
reserved sz out written =
    if ltb (length out + sz) (2 ^ 31) && length written == sz
    then some (sz, out ++ written)
    else none

-- The first `switch` of `htmlEscapeImpl`, and its loop.
unfoldable pub html_size : ℕ → ℕ
html_size c = if c == b'&' then 5 else if c == b'<' then 4 else if c == b'>' then 4 else 1

unfoldable pub html_count : ℕ → Bytes → ℕ
unfolding html_size
html_count sz [] = sz
html_count sz (c ∷ s) = html_count ((sz + html_size c) % 2 ^ 32) s

-- The second one, and its loop.
unfoldable pub html_byte : ℕ → Bytes
html_byte c =
    if c == b'&'
    then codes "&amp;"
    else if c == b'<'
    then codes "&lt;"
    else if c == b'>'
    then codes "&gt;"
    else c ∷ []

unfoldable pub html_written : Bytes → Bytes
unfolding html_byte
html_written [] = []
html_written (c ∷ s) = html_byte c ++ html_written s

unfoldable pub html_escape : Bytes → Bytes → Option (ℕ × Bytes)
unfolding html_count html_written
html_escape s out = reserved (html_count 0 s) out (html_written s)

-- The `switch` of `htmlAttributeEscapeImpl`; `none` is its `continue`.
unfoldable pub attribute_entity : ℕ → Option Bytes
attribute_entity c =
    if c == b'&'
    then some (codes "&amp;")
    else if c == b'<'
    then some (codes "&lt;")
    else if c == b'>'
    then some (codes "&gt;")
    else if c == b'"'
    then some (codes "&quot;")
    else if c == 39
    then some (codes "&apos;")
    else none

-- Its loop: `pending` holds the input from `last_i` on that has not been appended.
unfoldable pub attribute_loop : Bytes → Bytes → Bytes → Bytes
unfolding attribute_entity
attribute_loop [] pending out = flush pending out
attribute_loop (c ∷ s) pending out = elim (attribute_entity c) [
  | none ↦ attribute_loop s (pending ++ c ∷ []) out
  | some tmp ↦ attribute_loop s [] (flush pending out ++ tmp)
]

unfoldable pub html_attribute_escape : Bytes → Bytes → ℕ × Bytes
unfolding attribute_loop
html_attribute_escape s out = let out' = attribute_loop s [] out in (length out' - length out, out')

-- `isalnum` of the C library, in the "C" locale (the program sets no other).
unfoldable pub isalnum : ℕ → Bool
isalnum c = (leb b'0' c && leb c b'9') || (leb b'A' c && leb c b'Z') || (leb b'a' c && leb c b'z')

unfoldable pub js_count : ℕ → Bytes → ℕ
unfolding isalnum
js_count sz [] = sz
js_count sz (c ∷ s) = js_count ((sz + (if isalnum c then 1 else 6)) % 2 ^ 32) s

unfoldable pub js_byte : ℕ → Bytes
unfolding isalnum
js_byte c =
    if isalnum c then c ∷ [] else b'\\' ∷ b'u' ∷ b'0' ∷ b'0' ∷ high_digit c ∷ low_digit c ∷ []

unfoldable pub js_written : Bytes → Bytes
unfolding js_byte
js_written [] = []
js_written (c ∷ s) = js_byte c ++ js_written s

unfoldable pub js_escape : Bytes → Bytes → Option (ℕ × Bytes)
unfolding js_count js_written
js_escape s out = reserved (js_count 0 s) out (js_written s)

html_text : html_escape (codes "a<b&c") (codes ">") ≡ some (12, codes ">a&lt;b&amp;c")
unfolding html_escape
html_text = refl

attribute_text :
    html_attribute_escape (codes "x=\"y\"") (codes ">") ≡ (15, codes ">x=&quot;y&quot;")
unfolding html_attribute_escape
attribute_text = refl

js_text : js_escape (codes "a;") [] ≡ some (7, codes "a\\u003B")
unfolding js_escape high_digit low_digit
js_text = refl
