-- ===== src/Url/Decode.antt =====
-- `doURLDecode` against a description that reads the text from left to right, and its bounds.
use mathlib.Core.Path.{subst}
use cppsp_ng.Base.{
  ℕ, zero, suc, ◌+◌, ◌≤◌, ◌<◌, ◌≡◌, ◌≢◌, refl, sym, ap, ◌∙◌, inl, inr, true, false, Option, some,
  [], ◌∷◌, ◌++◌, append-nil, append_assoc, leb, ◌==◌, if◌then◌else◌, Bool-cases, take, drop, length,
  take-append_self, drop-append_self, get_or-append_add, drop-append_add, length-append,
  length-take, length-drop, arith,
}
use cppsp_ng.Base.Bytes.{Bytes, IsByte, All}
use cppsp_ng.Base.Search.{Lacks, FoundAt, memchr-cases}
use cppsp_ng.Url.Hex.{hex_byte, hex_byte-lt}
use cppsp_ng.Url.Defs.{
  plus_to_space, urldecode_memcpy, decode_at, decode_loop, do_url_decode, url_decode,
}

-- The text that an encoded text stands for: `%` with two bytes behind it is the byte that they spell in
-- hexadecimal, a `+` is a space, and any other byte stands for itself.
unfoldable pub decoded : Bytes → Bytes
decoded [] = []
decoded (c ∷ []) = plus_to_space c ∷ []
decoded (c ∷ d ∷ []) = plus_to_space c ∷ plus_to_space d ∷ []
decoded (c ∷ d ∷ e ∷ s) =
    if c == b'%' then hex_byte d e ∷ decoded s else plus_to_space c ∷ decoded (d ∷ e ∷ s)

pub decoded_skip : (c : ℕ) (s : Bytes) → c ≢ b'%' → decoded (c ∷ s) ≡ plus_to_space c ∷ decoded s
unfolding decoded
decoded_skip c [] h = refl
decoded_skip c (d ∷ []) h = refl
decoded_skip c (d ∷ e ∷ s) h = ground arith

pub decoded_escape : (d e : ℕ) (s : Bytes) → decoded (b'%' ∷ d ∷ e ∷ s) ≡ hex_byte d e ∷ decoded s
unfolding decoded
decoded_escape d e s = refl

decoded-append : (p s : Bytes) → Lacks b'%' p → decoded (p ++ s) ≡ urldecode_memcpy p ++ decoded s
unfolding urldecode_memcpy
decoded-append [] s h = refl
decoded-append (c ∷ p) s (h, hs) =
    decoded_skip c (p ++ s) h ∙ ap (λ (t : Bytes). plus_to_space c ∷ t) (decoded-append p s hs)

decoded-Lacks : (p : Bytes) → Lacks b'%' p → decoded p ≡ urldecode_memcpy p
unfolding urldecode_memcpy
decoded-Lacks [] h = unfold decoded in refl
decoded-Lacks (c ∷ p) (h, hs) =
    decoded_skip c p h ∙ ap (λ (t : Bytes). plus_to_space c ∷ t) (decoded-Lacks p hs)

-- A text of at most two bytes holds no escape.
decoded_short : (s : Bytes) → length s ≤ 2 → decoded s ≡ urldecode_memcpy s
unfolding urldecode_memcpy decoded
decoded_short [] h = refl
decoded_short (c ∷ []) h = refl
decoded_short (c ∷ d ∷ []) h = refl
decoded_short (c ∷ d ∷ e ∷ s) h = absurd (omega arith)

-- One round of the loop at text that is known up to its first `%`.
module _ (again : Bytes → Bytes → Option Bytes) (p out : Bytes) where
  decode_at_end :
      (r : Bytes)
      → length r < 2
      → decode_at again (p ++ b'%' ∷ r) out (some (length p))
        ≡ some (out ++ (urldecode_memcpy p ++ urldecode_memcpy (b'%' ∷ r)))
  unfolding decode_at
  decode_at_end r h =
      let short : leb (length (p ++ b'%' ∷ r)) (length p + 2) ≡ true =
        ground (arith, length-append p (b'%' ∷ r)) in
      rw (short, take-append_self p (b'%' ∷ r), drop-append_self p (b'%' ∷ r), append_assoc)

  decode_at_escape :
      (d e : ℕ) (r : Bytes)
      → decode_at again (p ++ b'%' ∷ d ∷ e ∷ r) out (some (length p))
        ≡ again r ((out ++ urldecode_memcpy p) ++ hex_byte d e ∷ [])
  unfolding decode_at
  decode_at_escape d e r =
      let tail : Bytes = b'%' ∷ d ∷ e ∷ r in
      let long : leb (length (p ++ tail)) (length p + 2) ≡ false =
        ground (arith, length-append p tail) in
      rw (
        long,
        take-append_self p tail,
        drop-append_add p tail 3,
        get_or-append_add p tail 1 0,
        get_or-append_add p tail 2 0,
      )

decode_loop-escape :
    (fuel : ℕ) (p r out : Bytes)
    → Lacks b'%' p
    → ((t o : Bytes) → length t < length r → decode_loop fuel t o ≡ some (o ++ decoded t))
    → decode_at (decode_loop fuel) (p ++ b'%' ∷ r) out (some (length p))
      ≡ some (out ++ decoded (p ++ b'%' ∷ r))
decode_loop-escape fuel p [] out h again =
    decode_at_end _ p out [] (omega arith)
    ∙ ap (λ (t : Bytes). some (out ++ t))
        (sym (
          decoded-append p (b'%' ∷ []) h
          ∙ ap (λ (t : Bytes). urldecode_memcpy p ++ t) (decoded_short (b'%' ∷ []) (omega arith))))
decode_loop-escape fuel p (d ∷ []) out h again =
    decode_at_end _ p out (d ∷ []) (omega arith)
    ∙ ap (λ (t : Bytes). some (out ++ t))
        (sym (
          decoded-append p (b'%' ∷ d ∷ []) h
          ∙ ap (λ (t : Bytes). urldecode_memcpy p ++ t)
              (decoded_short (b'%' ∷ d ∷ []) (omega arith))))
decode_loop-escape fuel p (d ∷ e ∷ r) out h again =
    decode_at_escape _ p out d e r
    ∙ again r _ (omega arith)
    ∙ ap some (rw (decoded-append p _ h, decoded_escape d e r) (simp append_assoc))

decode_loop-FoundAt :
    (fuel : ℕ) (s out : Bytes) (i : ℕ)
    → FoundAt b'%' s i
    → ((t o : Bytes)
        → length t < length (drop (suc i) s)
        → decode_loop fuel t o ≡ some (o ++ decoded t))
    → decode_at (decode_loop fuel) s out (some i) ≡ some (out ++ decoded s)
decode_loop-FoundAt fuel s out i found again =
    let p = take i s in
    let r = drop (suc i) s in
    let e : length p ≡ i = omega (arith, length-take i s, found.in_range) in
    subst (λ t. decode_at (decode_loop fuel) t out (some i) ≡ some (out ++ decoded t))
      (sym found.around)
      (subst
        (λ n.
          decode_at (decode_loop fuel) (p ++ b'%' ∷ r) out (some n)
          ≡ some (out ++ decoded (p ++ b'%' ∷ r)))
        e (decode_loop-escape fuel p r out found.first again))

decode_loop-decoded :
    (fuel : ℕ) (s out : Bytes) → length s < fuel → decode_loop fuel s out ≡ some (out ++ decoded s)
unfolding decode_loop
decode_loop-decoded zero s out h = absurd (omega arith)
decode_loop-decoded (suc fuel) [] out h = unfold decoded in ap some (sym (append-nil out))
decode_loop-decoded (suc fuel) (c ∷ s) out h = elim (memchr-cases b'%' (c ∷ s)) [
  | inl (e, lacks) ↦
      rw e (
        unfold decode_at in ap (λ (t : Bytes). some (out ++ t)) (sym (decoded-Lacks (c ∷ s) lacks)))
  | inr (i, e, found) ↦ rw e (
      decode_loop-FoundAt fuel (c ∷ s) out i found
        λ t o lt. decode_loop-decoded fuel t o (omega (arith, length-drop i s)))
]

-- Decoding ends within one round more than the text has bytes, with the bytes that the text stands for.
pub do_url_decode-decoded : (s : Bytes) → do_url_decode s ≡ some (decoded s)
unfolding do_url_decode
do_url_decode-decoded s = decode_loop-decoded (length s + 1) s [] (omega arith)

length-decoded-le : (s : Bytes) → length (decoded s) ≤ length s
unfolding decoded
length-decoded-le [] = omega arith
length-decoded-le (c ∷ []) = omega arith
length-decoded-le (c ∷ d ∷ []) = omega arith
length-decoded-le (c ∷ d ∷ e ∷ s) =
    ground (arith, length-decoded-le s, length-decoded-le (d ∷ e ∷ s))

plus_to_space-IsByte : (c : ℕ) → IsByte c → IsByte (plus_to_space c)
unfolding plus_to_space
plus_to_space-IsByte c h = ground arith

decoded-IsByte : (s : Bytes) → All IsByte s → All IsByte (decoded s)
unfolding decoded
decoded-IsByte [] h = tt
decoded-IsByte (c ∷ []) (h, _) = (plus_to_space-IsByte c h, tt)
decoded-IsByte (c ∷ d ∷ []) (h, (k, _)) = (plus_to_space-IsByte c h, (plus_to_space-IsByte d k, tt))
decoded-IsByte (c ∷ d ∷ e ∷ s) (hc, (hd, (he, hs))) = elim (Bool-cases (c == b'%')) [
  | inl hit ↦ rw hit (hex_byte-lt d e, decoded-IsByte s hs)
  | inr miss ↦ rw miss (plus_to_space-IsByte c hc, decoded-IsByte (d ∷ e ∷ s) (hd, (he, hs)))
]

-- `urlDecodeImpl` reserves as many bytes as the input has, and what is written stays within them: it
-- appends the decoded text, which is no longer than the input, consists of bytes if the input does, and
-- has the length that is returned.
pub url_decode_bounds :
    (s out : Bytes)
    → All IsByte s
    → (n : ℕ) × (t : Bytes) × (url_decode s out ≡ some (n, out ++ t))
      × (n ≡ length t)
      × (length t ≤ length s)
      × All IsByte t
unfolding url_decode
url_decode_bounds s out h = (
  length (decoded s),
  decoded s,
  rw (url_decode, do_url_decode-decoded s),
  refl,
  length-decoded-le s,
  decoded-IsByte s h,
)

pub url_decode-decoded :
    (s out : Bytes) → url_decode s out ≡ some (length (decoded s), out ++ decoded s)
unfolding url_decode
url_decode-decoded s out = rw (url_decode, do_url_decode-decoded s)
