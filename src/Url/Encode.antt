-- ===== src/Url/Encode.antt =====
-- `urlEncodeImpl`: what it appends, the bytes that this consists of, and decoding after encoding.
use cppsp_ng.Base.{
  ℕ, ◌+◌, ◌<◌, ◌≤◌, ◌≡◌, ◌≢◌, refl, sym, ap, ◌∙◌, ◌⊎◌, inl, inr, true, ◌||◌, ◌&&◌, not, some, [],
  ◌∷◌, ◌++◌, append-nil, append_assoc, ◌==◌, if◌then◌else◌, Bool-cases, length, arith,
}
use cppsp_ng.Base.Bytes.{Bytes, IsByte, All, holds_below, holds_below-lt}
use cppsp_ng.Url.Hex.{high_digit, low_digit, hex_byte-digits}
use cppsp_ng.Url.Defs.{
  is_plain, escape, flush, encode_loop, url_encode, plus_to_space, do_url_decode,
}
use cppsp_ng.Url.Decode.{decoded, decoded_skip, decoded_escape, do_url_decode-decoded}

-- A byte as the encoder writes it, and a text.
unfoldable pub encoded_byte : ℕ → Bytes
encoded_byte c = if is_plain c then c ∷ [] else escape c

unfoldable pub encoded : Bytes → Bytes
encoded [] = []
encoded (c ∷ s) = encoded_byte c ++ encoded s

flush-append : (pending out : Bytes) → flush pending out ≡ out ++ pending
flush-append [] out = sym (append-nil out)
flush-append (c ∷ s) out = refl

-- What the counter `asdf` is at the end.
added : Bytes → ℕ
added [] = 0
added (c ∷ s) = (if is_plain c then 0 else 2) + added s

length-encoded : (s : Bytes) → length s + added s ≡ length (encoded s)
unfolding added encoded encoded_byte
length-encoded [] = refl
length-encoded (c ∷ s) = elim (Bool-cases (is_plain c)) [
  | inl e ↦ rw e (omega (arith, length-encoded s))
  | inr e ↦ rw e (omega (arith, length-encoded s))
]

encode_loop-encoded :
    (s pending out : Bytes) (extra : ℕ)
    → encode_loop s pending extra out ≡ (extra + added s, out ++ (pending ++ encoded s))
unfolding encode_loop added encoded encoded_byte
encode_loop-encoded [] pending out extra =
    rw (flush-append, append-nil) (ap (λ (n : ℕ). (n, out ++ pending)) (omega arith))
encode_loop-encoded (c ∷ s) pending out extra = elim (Bool-cases (is_plain c)) [
  | inl e ↦
      rw (e, encode_loop, encode_loop-encoded s (pending ++ c ∷ []) out extra)
        (simp append_assoc (ap (λ (n : ℕ). (n, out ++ (pending ++ c ∷ encoded s))) (omega arith)))
  | inr e ↦
      rw
        (
          e,
          encode_loop,
          encode_loop-encoded s [] (flush pending out ++ escape c) (extra + 2),
          flush-append,
        )
        (simp append_assoc
          (ap (λ (n : ℕ). (n, out ++ (pending ++ (escape c ++ encoded s)))) (omega arith)))
]

-- `urlEncodeImpl` appends the encoded text, and returns how many bytes that are.
pub url_encode-encoded : (s out : Bytes) → url_encode s out ≡ (length (encoded s), out ++ encoded s)
unfolding url_encode
url_encode-encoded s out =
    rw (url_encode, encode_loop-encoded s [] out 0, ← length-encoded s)
      (ap (λ (n : ℕ). (length s + n, out ++ encoded s)) (omega arith))

plain_table : holds_below (λ c. not (is_plain c) || (not (c == b'%') && not (c == b'+'))) 256 ≡ true
unfolding holds_below is_plain
plain_table = refl

-- No byte that is copied as it is means anything else to the decoder.
plain_not_special : (c : ℕ) → c < 256 → is_plain c ≡ true → (c ≢ b'%') × (c ≢ b'+')
plain_not_special c h plain = let e = holds_below-lt _ 256 c h plain_table in ground arith

decoded-encoded_byte :
    (c : ℕ) (s : Bytes) → IsByte c → decoded (encoded_byte c ++ s) ≡ c ∷ decoded s
unfolding encoded_byte plus_to_space
decoded-encoded_byte c s h = elim (Bool-cases (is_plain c)) [
  | inl e ↦
      let (no_percent, no_plus) = plain_not_special c h e in
      rw (e, decoded_skip c s no_percent) (ground arith)
  | inr e ↦
      rw (e, decoded_escape (high_digit c) (low_digit c) s)
        (ap (λ (x : ℕ). x ∷ decoded s) (hex_byte-digits c h))
]

decoded-encoded : (s : Bytes) → All IsByte s → decoded (encoded s) ≡ s
unfolding encoded
decoded-encoded [] h = unfold decoded in refl
decoded-encoded (c ∷ s) (h, hs) =
    decoded-encoded_byte c (encoded s) h ∙ ap (λ (t : Bytes). c ∷ t) (decoded-encoded s hs)

-- Decoding what the encoder appends to an empty string gives the text back, whatever bytes it holds.
pub do_url_decode-url_encode :
    (s : Bytes) → All IsByte s → do_url_decode ((url_encode s []).1) ≡ some s
do_url_decode-url_encode s h =
    rw (url_encode-encoded s []) (do_url_decode-decoded (encoded s) ∙ ap some (decoded-encoded s h))

-- The bytes that stand in an encoded text: `%`, a digit, a letter, or one of six signs.
abbrev pub IsUrlByte : ℕ → Type 0
IsUrlByte c =
    (c ≡ b'%')
    ⊎ ((48 ≤ c) × (c ≤ 57))
    ⊎ ((65 ≤ c) × (c ≤ 90))
    ⊎ ((97 ≤ c) × (c ≤ 122))
    ⊎ ((c ≡ b'~') ⊎ (c ≡ b'!') ⊎ (c ≡ b'*') ⊎ (c ≡ b'(') ⊎ (c ≡ b')') ⊎ (c ≡ 39))
