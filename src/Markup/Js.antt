-- ===== src/Markup/Js.antt =====
-- `jsEscapeImpl`: sizes, the bytes that it writes, and that a reader of escapes reads the text back.
use cppsp_ng.Base.{
  ℕ, ◌+◌, ◌*◌, ◌%◌, ◌^◌, ◌<◌, ◌≤◌, ltb, length-append, ◌≡◌, refl, ap, ◌∙◌, ◌⊎◌, inl, inr, true,
  false, not, ◌||◌, ◌&&◌, none, some, [], ◌∷◌, ◌++◌, ◌==◌, Bool-cases, length, arith,
}
use cppsp_ng.Base.Bytes.{Bytes, IsByte, All, All-append, holds_below, holds_below-lt}
use cppsp_ng.Url.Hex.{high_digit, low_digit, hex_byte-digits}
use cppsp_ng.Markup.Defs.{isalnum, js_count, js_byte, js_written, js_escape}
use cppsp_ng.Markup.Reader.{escapes_from}

js_count-length :
    (s : Bytes) (sz : ℕ) → sz + 6 * length s < 2 ^ 32 → js_count sz s ≡ sz + length (js_written s)
unfolding js_count js_written
js_count-length [] sz h = omega arith
js_count-length (c ∷ s) sz h = elim (Bool-cases (isalnum c)) [
  | inl e ↦ rw (e, small 1 (omega arith)) (js_count-length s (sz + 1) (omega arith) ∙ omega arith)
  | inr e ↦ rw (e, small 6 (omega arith)) (js_count-length s (sz + 6) (omega arith) ∙ omega arith)
]
  where
    small : (k : ℕ) → k < 7 → (sz + k) % 2 ^ 32 ≡ sz + k
    small k lt = omega arith

alnum_table : holds_below (λ c. not (isalnum c) || not (c == b'\\')) 256 ≡ true
unfolding holds_below isalnum
alnum_table = refl

escapes_from-js_byte :
    (c : ℕ) (r : Bytes) → IsByte c → escapes_from none (js_byte c ++ r) ≡ c ∷ escapes_from none r
unfolding js_byte escapes_from
escapes_from-js_byte c r h = elim (Bool-cases (isalnum c)) [
  | inl e ↦
      let row = holds_below-lt _ 256 c h alnum_table in
      let other : (c == b'\\') ≡ false = ground arith in rw e (rw (escapes_from, other))
  | inr e ↦ rw e (ap (λ (x : ℕ). x ∷ escapes_from none r) (hex_byte-digits c h))
]

escapes_from-js_written : (s : Bytes) → All IsByte s → escapes_from none (js_written s) ≡ s
unfolding js_written
escapes_from-js_written [] h = unfold escapes_from in refl
escapes_from-js_written (c ∷ s) (h, hs) =
    escapes_from-js_byte c (js_written s) h
    ∙ ap (λ (t : Bytes). c ∷ t) (escapes_from-js_written s hs)

-- The bytes that stand in the output: letters, digits and the backslash.
abbrev pub IsJsByte : ℕ → Type 0
IsJsByte c = (c ≡ b'\\') ⊎ ((48 ≤ c) × (c ≤ 57)) ⊎ ((65 ≤ c) × (c ≤ 90)) ⊎ ((97 ≤ c) × (c ≤ 122))

alnum-IsJsByte : (c : ℕ) → isalnum c ≡ true → IsJsByte c
unfolding isalnum
alnum-IsJsByte c h = ground arith

digit_table : holds_below (λ c. isalnum (high_digit c) && isalnum (low_digit c)) 256 ≡ true
unfolding holds_below isalnum high_digit low_digit
digit_table = refl

js_byte-IsJsByte : (c : ℕ) → IsByte c → All IsJsByte (js_byte c)
unfolding js_byte
js_byte-IsJsByte c h = elim (Bool-cases (isalnum c)) [
  | inl e ↦ rw e (alnum-IsJsByte c e, tt)
  | inr e ↦
      let digits = holds_below-lt _ 256 c h digit_table in
      rw e (
        inl refl,
        (
          alnum-IsJsByte b'u' refl,
          (
            alnum-IsJsByte b'0' refl,
            (
              alnum-IsJsByte b'0' refl,
              (
                alnum-IsJsByte (high_digit c) (ground arith),
                (alnum-IsJsByte (low_digit c) (ground arith), tt),
              ),
            ),
          ),
        ),
      )
]

js_written-IsJsByte : (s : Bytes) → All IsByte s → All IsJsByte (js_written s)
unfolding js_written
js_written-IsJsByte [] h = tt
js_written-IsJsByte (c ∷ s) (h, hs) =
    All-append _ (js_byte c) (js_written s) (js_byte-IsJsByte c h) (js_written-IsJsByte s hs)

length-js_written-le : (s : Bytes) → length (js_written s) ≤ 6 * length s
unfolding js_written
length-js_written-le [] = omega arith
length-js_written-le (c ∷ s) =
    let size : length (js_byte c) ≤ 6 = unfold js_byte in ground arith in
    omega (arith, length-append (js_byte c) (js_written s), length-js_written-le s, size)

-- Where the length of the output and six times that of the input, which consists of bytes, stay below 2 ^ 31
-- together, `jsEscapeImpl` fills exactly the bytes that
-- it reserves, and appends them. They are letters, digits and backslashes only, so they can end no string
-- of JavaScript, and a reader that replaces `\u00XX` reads the input from them.
pub js_escape_lem :
    (s out : Bytes)
    → All IsByte s
    → length out + 6 * length s < 2 ^ 31
    → (t : Bytes) × (js_escape s out ≡ some (length t, out ++ t))
      × All IsJsByte t
      × (escapes_from none t ≡ s)
unfolding js_escape js_written
js_escape_lem s out h fits =
    let e : js_count 0 s ≡ length (js_written s) =
      omega (arith, js_count-length s 0 (omega arith)) in
    let full : (ltb (length out + length (js_written s)) (2 ^ 31)
          && length (js_written s) == length (js_written s))
        ≡ true =
      ground (arith, length-js_written-le s) in
    (js_written s, rw (js_escape, e, full), js_written-IsJsByte s h, escapes_from-js_written s h)
