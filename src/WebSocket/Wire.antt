-- ===== src/WebSocket/Wire.antt =====
-- Frames as they are sent (RFC 6455, section 5.2): the bytes of a header, and masking.
use cppsp_ng.Base.{
  ℕ, suc, ◌+◌, ◌%◌, ◌^◌, ◌≤◌, ◌<◌, ◌≡◌, refl, sym, ap, ◌∙◌, ◌⊎◌, inl, inr, Bool, [], ◌∷◌, ◌++◌,
  bit_xor, ltb, if◌then◌else◌, Bool-cases, length, get_or, cons-eq, arith,
}
use cppsp_ng.Base.Bytes.{Bytes, IsByte, All}
use cppsp_ng.Base.Memory.{Memory, span}
use cppsp_ng.Base.Xor.{bit_xor_twice}
use cppsp_ng.WebSocket.Words.{
  swap16, little_endian, big_endian16, big_endian64, htonll, htonll-lt, store64-htonll,
  little_endian-store64, swap16-little_endian,
}
use cppsp_ng.WebSocket.Parser.{payload_length, extended_len, payload_len_of, mask_of, header_len}

-- The seven bits for the length of the payload, and the longer form behind them.
unfoldable pub short_length : ℕ → ℕ
short_length n = if ltb n 126 then n else if ltb n 65536 then 126 else 127

unfoldable pub long_length : ℕ → Bytes
long_length n = if ltb n 126 then [] else if ltb n 65536 then big_endian16 n else big_endian64 n

-- The payload under the four bytes of a key, from the byte with index `i` on.
unfoldable pub masked : Bytes → ℕ → Bytes → Bytes
masked key i [] = []
masked key i (x ∷ xs) = bit_xor x (get_or key (i % 4) 0) ∷ masked key (suc i) xs

-- A frame, with a key if it is masked. `[]` stands for no key.
abbrev pub under : Bytes → Bytes → Bytes
under [] payload = payload
under (k ∷ key) payload = masked (k ∷ key) 0 payload

abbrev pub has_key : Bytes → ℕ
has_key [] = 0
has_key (k ∷ key) = 128

unfoldable pub frame_bytes : Bool → ℕ → Bytes → Bytes → Bytes
frame_bytes fin opcode key payload =
    ((if fin then 128 else 0) + opcode)
    ∷ (short_length (length payload) + has_key key)
    ∷ (long_length (length payload) ++ (key ++ under key payload))

pub length-masked : (key : Bytes) (i : ℕ) (xs : Bytes) → length (masked key i xs) ≡ length xs
unfolding masked
length-masked key i [] = refl
length-masked key i (x ∷ xs) = ap suc (length-masked key (suc i) xs)

pub masked_twice :
    (key : Bytes) (i : ℕ) (xs : Bytes)
    → ((j : ℕ) → get_or key j 0 < 256)
    → All IsByte xs
    → masked key i (masked key i xs) ≡ xs
unfolding masked
masked_twice key i [] hk h = refl
masked_twice key i (x ∷ xs) hk (h, hs) =
    cons-eq (bit_xor_twice x (get_or key (i % 4) 0) h (hk (i % 4)))
      (masked_twice key (suc i) xs hk hs)

-- The three forms in which a length is sent.
pub data Form (n : ℕ) : Type 0 where
  short : n < 126 → short_length n ≡ n → long_length n ≡ [] → Form n
  medium : 126 ≤ n → n < 65536 → short_length n ≡ 126 → long_length n ≡ big_endian16 n → Form n
  long : 65536 ≤ n → short_length n ≡ 127 → long_length n ≡ big_endian64 n → Form n

pub form : (n : ℕ) → Form n
unfolding short_length long_length
form n = elim (Bool-cases (ltb n 126)) [
  | inl a ↦ short (ground arith) (rw a) (rw a)
  | inr a ↦ elim (Bool-cases (ltb n 65536)) [
    | inl b ↦ medium (ground arith) (ground arith) (rw (a, b)) (rw (a, b))
    | inr b ↦ long (ground arith) (rw (a, b)) (rw (a, b))
  ]
]

-- The header that goes with a length and a key of four bytes, as the parser measures it.
pub header_len-short_length :
    (n : ℕ) (m : ℕ)
    → (m ≡ 0) ⊎ (m ≡ 128)
    → header_len (short_length n + m) ≡ 2 + length (long_length n) + (if ltb 0 m then 4 else 0)
header_len-short_length n m bit = from (form n) bit
  where
    from :
        Form n
        → (m ≡ 0) ⊎ (m ≡ 128)
        → header_len (short_length n + m) ≡ 2 + length (long_length n) + (if ltb 0 m then 4 else 0)
    from (short lt s l) bit = rw (s, l) (ground arith)
    from (medium lo hi s l) (inl e) = rw (s, l, e) (unfold big_endian16 in refl)
    from (medium lo hi s l) (inr e) = rw (s, l, e) (unfold big_endian16 in refl)
    from (long lo s l) (inl e) = rw (s, l, e) (unfold big_endian64 in refl)
    from (long lo s l) (inr e) = rw (s, l, e) (unfold big_endian64 in refl)

pub extended_len-short_length : (n : ℕ) → extended_len (short_length n) ≡ length (long_length n)
extended_len-short_length n = from (form n)
  where
    from : Form n → extended_len (short_length n) ≡ length (long_length n)
    from (short lt s l) = rw (s, l) (ground arith)
    from (medium lo hi s l) = rw (s, l) (unfold big_endian16 in refl)
    from (long lo s l) = rw (s, l) (unfold big_endian64 in refl)

pub payload_len_of-short_length :
    (n : ℕ) (m : ℕ)
    → (m ≡ 0) ⊎ (m ≡ 128)
    → (payload_len_of (short_length n + m) ≡ short_length n)
      × (mask_of (short_length n + m) ≡ ltb 0 m)
unfolding short_length
payload_len_of-short_length n m bit = ground arith

-- The length that the parser reads is the one that the frame has. `ntohll` is supposed to undo `htonll`.
module _ (ntohll : ℕ → ℕ) (reverses : (x : ℕ) → x < 2 ^ 64 → ntohll (htonll x) ≡ x) where
  read_medium :
      (mem : Memory) (a n : ℕ)
      → span mem a 2 ≡ big_endian16 n
      → payload_length ntohll mem a 126 ≡ swap16 (little_endian (big_endian16 n))
  unfolding payload_length
  read_medium mem a n e = ap (λ (s : Bytes). swap16 (little_endian s)) e

  read_long :
      (mem : Memory) (a n : ℕ)
      → span mem a 8 ≡ big_endian64 n
      → payload_length ntohll mem a 127 ≡ ntohll (little_endian (big_endian64 n))
  unfolding payload_length
  read_long mem a n e = ap (λ (s : Bytes). ntohll (little_endian s)) e

  read_short : (mem : Memory) (a n : ℕ) → n < 126 → payload_length ntohll mem a n ≡ n
  unfolding payload_length
  read_short mem a n h = ground arith

  pub payload_length-short_length :
      (mem : Memory) (a n : ℕ)
      → n < 2 ^ 64
      → span mem a (length (long_length n)) ≡ long_length n
      → payload_length ntohll mem a (short_length n) ≡ n
  payload_length-short_length mem a n h e = from (form n)
    where
      from : Form n → payload_length ntohll mem a (short_length n) ≡ n
      from (short lt s l) = rw s (read_short mem a n lt)
      from (medium lo hi s l) =
          rw s (read_medium mem a n (unfold big_endian16 in rw l at e) ∙ swap16-little_endian n hi)
      from (long lo s l) = rw s (
          read_long mem a n (unfold big_endian64 in rw l at e)
          ∙ ap (λ (b : Bytes). ntohll (little_endian b)) (sym (store64-htonll n))
          ∙ ap ntohll (little_endian-store64 (htonll n) (htonll-lt n))
          ∙ reverses n h)
