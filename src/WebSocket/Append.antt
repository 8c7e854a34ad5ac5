-- ===== src/WebSocket/Append.antt =====
-- What `begin_append` and `end_append` put into the current buffer of a `FrameWriter`.
use cppsp_ng.Base.{
  ℕ, ◌+◌, ◌%◌, ◌^◌, ◌≤◌, ◌<◌, ◌≡◌, refl, sym, ap, ◌∙◌, inl, inr, true, false, ◌&&◌, [], ◌∷◌, ◌++◌,
  append-nil, ltb, leb, Bool-cases, take, length, length-append, take-append_self, cons-eq, arith,
}
use cppsp_ng.Base.Bytes.{Bytes}
use cppsp_ng.WebSocket.Words.{swap16, htonll, store16, store64, store16-swap16, store64-htonll}
use cppsp_ng.WebSocket.Wire.{frame_bytes, Form, short, medium, long, form}
use cppsp_ng.WebSocket.Writer.{
  FrameWriter, curr_buffer, other_buffer, set_curr, writer_header_len, begin_append, header_bytes,
  end_append,
}

module _ (opcode len : ℕ) where
  header_short : len < 126 → header_bytes opcode len ≡ (128 + opcode % 2 ^ 4) ∷ (len % 2 ^ 7) ∷ []
  unfolding header_bytes
  header_short h =
      let a : (ltb 125 len && leb len 0xffff) ≡ false = ground arith in
      let b : ltb 0xffff len ≡ false = ground arith in rw (a, b)

  header_medium :
      126 ≤ len
      → len < 65536
      → header_bytes opcode len ≡ (128 + opcode % 2 ^ 4) ∷ 126 ∷ store16 (swap16 (len % 2 ^ 16))
  unfolding header_bytes
  header_medium lo hi = let a : (ltb 125 len && leb len 0xffff) ≡ true = ground arith in rw a

  header_long :
      65536 ≤ len → header_bytes opcode len ≡ (128 + opcode % 2 ^ 4) ∷ 127 ∷ store64 (htonll len)
  unfolding header_bytes
  header_long lo =
      let a : (ltb 125 len && leb len 0xffff) ≡ false = ground arith in
      let b : ltb 0xffff len ≡ true = ground arith in rw (a, b)

-- The header is that of a frame with FIN and without a key.
header_bytes-frame_bytes :
    (opcode : ℕ) (payload : Bytes)
    → header_bytes opcode (length payload) ++ payload ≡ frame_bytes true (opcode % 16) [] payload
unfolding frame_bytes
header_bytes-frame_bytes opcode payload = from (form n)
  where
    n : ℕ
    n = length payload

    from :
        Form n
        → header_bytes opcode (length payload) ++ payload
          ≡ frame_bytes true (opcode % 16) [] payload
    from (short lt s l) =
        rw (header_short opcode n lt, frame_bytes, s, l) (cons-eq refl (cons-eq (omega arith) refl))
    from (medium lo hi s l) =
        let e : n % 2 ^ 16 ≡ n = omega arith in
        rw (header_medium opcode n lo hi, frame_bytes, s, l, e, store16-swap16 n) refl
    from (long lo s l) = rw (header_long opcode n lo, frame_bytes, s, l, store64-htonll n) refl

length-header_bytes : (opcode len : ℕ) → length (header_bytes opcode len) ≡ writer_header_len len
length-header_bytes opcode len = elim (Bool-cases (ltb len 126)) [
  | inl a ↦ rw (header_short opcode len (ground arith)) (unfold writer_header_len in ground arith)
  | inr a ↦ elim (Bool-cases (ltb len 65536)) [
    | inl b ↦
        rw (header_medium opcode len (ground arith) (ground arith))
          (unfold store16 writer_header_len in ground arith)
    | inr b ↦
        rw (header_long opcode len (ground arith))
          (unfold store64 writer_header_len in ground arith)
  ]
]

take_all : (n : ℕ) (s : Bytes) → n ≡ length s → take n s ≡ s
take_all n s e =
    ap (λ (k : ℕ). take k s) e ∙ ap (take (length s)) (sym (append-nil s)) ∙ take-append_self s []

-- Filling one buffer leaves the other, and all the rest.
record Filled (b : Bytes) (w v : FrameWriter) : Type 0 where
  curr_eq : curr_buffer v ≡ b
  other_eq : other_buffer v ≡ other_buffer w
  writing_eq : v.writing ≡ w.writing

set_curr-Filled : (b : Bytes) (w : FrameWriter) → Filled b w (set_curr b w)
set_curr-Filled b w = ground arith

header_len_max : (len : ℕ) → writer_header_len len ≤ 14
unfolding writer_header_len
header_len_max len = ground arith

filled_text :
    (opcode : ℕ) (payload old : Bytes)
    → length old + (14 + length payload) < 2 ^ 32
    → take
        ((length old + writer_header_len (length payload) + length payload) % 2 ^ 32)
        (take (length old) old ++ (header_bytes opcode (length payload) ++ payload))
      ≡ old ++ frame_bytes true (opcode % 16) [] payload
filled_text opcode payload old fits =
    let n = length payload in
    let m = header_len_max n in
    let e : length (old ++ (header_bytes opcode n ++ payload))
        ≡ length old + (writer_header_len n + n) =
      rw (length-append, length-append, length-header_bytes) refl in
    rw (take_all (length old) old refl) (
      take_all _ _ (omega arith)
      ∙ ap (λ (t : Bytes). old ++ t) (header_bytes-frame_bytes opcode payload))

-- Appending a frame in the two steps: the space for the payload, and the header when it is there.
unfoldable pub append_frame : ℕ → Bytes → FrameWriter → FrameWriter
append_frame opcode payload w = end_append opcode payload (begin_append (length payload) w)

-- `beginAppend` and `endAppend` put a frame with FIN, the low four bits of the opcode and the payload, not
-- masked, behind what the current buffer holds, if its new length fits in 32 bits. They leave the other
-- buffer alone, and start no write.
pub append_frame-Filled :
    (opcode : ℕ) (payload : Bytes) (w : FrameWriter)
    → length (curr_buffer w) + (14 + length payload) < 2 ^ 32
    → (curr_buffer (append_frame opcode payload w)
        ≡ curr_buffer w ++ frame_bytes true (opcode % 16) [] payload)
      × (other_buffer (append_frame opcode payload w) ≡ other_buffer w)
      × ((append_frame opcode payload w).writing ≡ w.writing)
unfolding append_frame begin_append end_append
append_frame-Filled opcode payload w fits =
    let n = length payload in
    let old = curr_buffer w in
    let new = header_bytes opcode n ++ payload in
    let f = set_curr-Filled _ (begin_append n w) in
    (f.curr_eq ∙ filled_text opcode payload old fits, f.other_eq, f.writing_eq)
