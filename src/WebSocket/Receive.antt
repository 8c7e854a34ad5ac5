-- ===== src/WebSocket/Receive.antt =====
-- `process` reads the frames that a peer sends, masked or not.
use cppsp_ng.Base.{
  ℕ, zero, suc, ◌+◌, ◌-◌, ◌^◌, ◌≤◌, ◌<◌, ◌≡◌, refl, sym, ap, ◌∙◌, ◌⊎◌, inl, inr, Bool, true, false,
  [], ◌∷◌, if◌then◌else◌, length, get_or, arith,
}
use cppsp_ng.Base.Bytes.{Bytes, IsByte, All}
use cppsp_ng.Base.Memory.{span}
use cppsp_ng.Base.Find.{span_index}
use cppsp_ng.WebSocket.Words.{htonll}
use cppsp_ng.WebSocket.Parser.{
  WebSocketParser, Frame, Processed, got_frame, payload_length, unmask, opcode_of, fin_of,
  extended_len, payload_len_of, mask_of, process,
}
use cppsp_ng.WebSocket.Wire.{
  short_length, long_length, masked, masked_twice, length-masked, frame_bytes,
  header_len-short_length, payload_len_of-short_length, extended_len-short_length,
  payload_length-short_length,
}
use cppsp_ng.WebSocket.Unmask.{unmask_outside, span-unmask}
use cppsp_ng.WebSocket.Step.{process_step, payload_plain, payload_masked}
use cppsp_ng.WebSocket.Laid.{Laid, Laid-frame_bytes, length-frame_bytes}

-- A key: none, or four bytes.
abbrev pub IsKey : Bytes → Type 0
IsKey key = All IsByte key × ((length key ≡ 0) ⊎ (length key ≡ 4))

get_or-lt : (key : Bytes) (j : ℕ) → All IsByte key → get_or key j 0 < 256
get_or-lt [] j h = omega arith
get_or-lt (k ∷ key) zero (h, hs) = h
get_or-lt (k ∷ key) (suc j) (h, hs) = get_or-lt key j hs

-- What a call of `process` gives for a frame of `len` bytes.
pub record Received (p : WebSocketParser) (fin : Bool) (opcode : ℕ) (payload : Bytes) (len : ℕ)
    (r : Processed) : Type 0 where
  pub after : WebSocketParser
  pub frame : Frame
  pub answer : r ≡ got_frame after frame
  pub fin_eq : frame.fin ≡ fin
  pub opcode_eq : frame.opcode ≡ opcode
  pub payload_eq : span after.buffer frame.start frame.len ≡ payload
  pub begin_eq : after.begin ≡ p.begin + len
  pub end_eq : after.end ≡ p.end
  pub hint_eq : after.frame_size_hint ≡ 0
  pub behind : (i : ℕ) → p.begin + len ≤ i → after.buffer i ≡ p.buffer i

first_fields :
    (fin : Bool) (opcode : ℕ)
    → opcode < 16
    → (fin_of ((if fin then 128 else 0) + opcode) ≡ fin)
      × (opcode_of ((if fin then 128 else 0) + opcode) ≡ opcode)
first_fields true opcode h = ground arith
first_fields false opcode h = ground arith

module _ (ntohll : ℕ → ℕ) (reverses : (x : ℕ) → x < 2 ^ 64 → ntohll (htonll x) ≡ x) where
  receive_keyed :
      (p : WebSocketParser) (fin : Bool) (opcode : ℕ) (key payload : Bytes)
      → Laid p.buffer p.begin fin opcode key payload
      → opcode < 16
      → IsKey key
      → All IsByte payload
      → let len = 2 + length (long_length (length payload)) + length key + length payload in
        len ≤ p.end - p.begin
        → len ≤ p.max_frame_size
        → p.max_frame_size < 2 ^ 30
        → Received p fin opcode payload len (process ntohll p)
  receive_keyed p fin opcode [] payload laid op k bytes there fits cap =
      let n = length payload in
      let l = length (long_length n) in
      let m = 2 + l + 0 in
      let (e_len, e_mask) = payload_len_of-short_length n 0 (inl refl) in
      let step =
        process_step ntohll p (short_length n + 0) m n laid.second
          (header_len-short_length n 0 (inl refl))
          (ap (payload_length ntohll p.buffer (p.begin + 2)) e_len
            ∙ payload_length-short_length ntohll reverses p.buffer (p.begin + 2) n (omega arith)
                laid.long_at)
          (omega arith) there fits cap in
      let plain = payload_plain ntohll p m n there fits (ap mask_of laid.second ∙ e_mask) in
      let (e_fin, e_op) = first_fields fin opcode op in
      record {
        after = record p { begin = p.begin + (m + n); frame_size_hint = 0 };
        frame = record {
          start = p.begin + m;
          len = n;
          opcode = opcode_of (p.buffer p.begin);
          fin = fin_of (p.buffer p.begin);
        };
        answer = step ∙ plain;
        fin_eq = ap fin_of laid.first ∙ e_fin;
        opcode_eq = ap opcode_of laid.first ∙ e_op;
        payload_eq = ap (λ (a : ℕ). span p.buffer a n) (omega arith) ∙ laid.payload_at;
        begin_eq = refl;
        end_eq = refl;
        hint_eq = refl;
        behind = λ i le. refl;
      }
  receive_keyed p fin opcode (x ∷ xs) payload laid op (key_bytes, four) bytes there fits cap =
      let n = length payload in
      let l = length (long_length n) in
      let m = 2 + l + suc (length xs) in
      let at = p.begin + 2 + l in
      let (e_len, e_mask) = payload_len_of-short_length n 128 (inr refl) in
      let step =
        process_step ntohll p (short_length n + 128) m n laid.second
          (header_len-short_length n 128 (inr refl) ∙ omega (arith, four))
          (ap (payload_length ntohll p.buffer (p.begin + 2)) e_len
            ∙ payload_length-short_length ntohll reverses p.buffer (p.begin + 2) n (omega arith)
                laid.long_at)
          (omega arith) there fits cap in
      let e_at : p.begin + 2 + extended_len (payload_len_of (p.buffer (p.begin + 1))) ≡ at =
        ap (λ (b : ℕ). p.begin + 2 + b)
          (ap (λ (b : ℕ). extended_len (payload_len_of b)) laid.second
            ∙ ap extended_len e_len
            ∙ extended_len-short_length n) in
      let with_key =
        payload_masked ntohll p m n at there fits (ap mask_of laid.second ∙ e_mask) e_at in
      let (e_fin, e_op) = first_fields fin opcode op in
      let sent : span p.buffer (p.begin + m) n ≡ masked (x ∷ xs) 0 payload =
        ap (λ (a : ℕ). span p.buffer a n) (omega arith)
        ∙ ap (span p.buffer (at + suc (length xs))) (sym (length-masked (x ∷ xs) 0 payload))
        ∙ laid.payload_at in
      record {
        after = record p {
          buffer = unmask p.buffer (λ j. p.buffer (at + j)) (p.begin + m) 0 n;
          begin = p.begin + (m + n);
          frame_size_hint = 0;
        };
        frame = record {
          start = p.begin + m;
          len = n;
          opcode = opcode_of (p.buffer p.begin);
          fin = fin_of (p.buffer p.begin);
        };
        answer = step ∙ with_key;
        fin_eq = ap fin_of laid.first ∙ e_fin;
        opcode_eq = ap opcode_of laid.first ∙ e_op;
        payload_eq =
            span-unmask p.buffer (λ j. p.buffer (at + j)) (x ∷ xs) (p.begin + m) 0 n
              (λ j lt.
                sym (span_index p.buffer at (suc (length xs)) j 0 (omega (arith, four)))
                ∙ ap (λ (k : Bytes). get_or k j 0) laid.key_at)
            ∙ ap (masked (x ∷ xs) 0) sent
            ∙ masked_twice (x ∷ xs) 0 payload (λ j. get_or-lt (x ∷ xs) j key_bytes) bytes;
        begin_eq = refl;
        end_eq = refl;
        hint_eq = refl;
        behind = λ i le.
            unmask_outside p.buffer (λ j. p.buffer (at + j)) (p.begin + m) 0 n i
              (inr (omega arith));
      }

  -- Where a whole frame of RFC 6455, with an opcode of four bits and a payload of bytes, masked under four
  -- bytes or not masked, stands at the start of the data, and is no longer than `maxFrameSize`, which is below
  -- 2 ^ 30, `process` returns true with the frame's opcode, FIN bit and payload, which it has unmasked in
  -- place. It moves on by the length of the frame, and changes no byte behind it. `ntohll` is supposed to undo
  -- `htonll` on numbers of 64 bits.
  pub process-frame_bytes :
      (p : WebSocketParser) (fin : Bool) (opcode : ℕ) (key payload : Bytes)
      → opcode < 16
      → IsKey key
      → All IsByte payload
      → span p.buffer p.begin (length (frame_bytes fin opcode key payload))
        ≡ frame_bytes fin opcode key payload
      → length (frame_bytes fin opcode key payload) ≤ p.end - p.begin
      → length (frame_bytes fin opcode key payload) ≤ p.max_frame_size
      → p.max_frame_size < 2 ^ 30
      → Received p fin opcode payload
          (length (frame_bytes fin opcode key payload))
          (process ntohll p)
  process-frame_bytes p fin opcode key payload op k bytes held there fits cap =
      let e = length-frame_bytes fin opcode key payload in
      rw e (
        receive_keyed p fin opcode key payload
          (Laid-frame_bytes p.buffer p.begin fin opcode key payload held) op k bytes
          (omega (arith, e)) (omega (arith, e)) cap)
