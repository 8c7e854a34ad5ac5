-- ===== src/WebSocket/Step.antt =====
-- `process` step by step, on a frame whose parts are known.
use mathlib.Core.Path.{ap₂}
use cppsp_ng.Base.{ℕ, ◌+◌, ◌-◌, ◌^◌, ◌≤◌, ◌<◌, ◌≡◌, ap, ◌∙◌, true, false, not, ◌&&◌, ltb, arith}
use cppsp_ng.WebSocket.Parser.{
  WebSocketParser, got_frame, payload_length, unmask, opcode_of, fin_of, extended_len,
  payload_len_of, mask_of, header_len, process_payload, process_header, process,
}

module _ (ntohll : ℕ → ℕ) where
  process_header_step :
      (p : WebSocketParser) (m n : ℕ)
      → 2 ≤ m
      → m + n ≤ p.end - p.begin
      → m + n ≤ p.max_frame_size
      → p.max_frame_size < 2 ^ 30
      → process_header ntohll p m n ≡ process_payload ntohll p m n
  unfolding process_header
  process_header_step p m n two there fits cap =
      let a : ltb (p.end - p.begin) m ≡ false = ground arith in
      let b : not (ltb 0 p.max_frame_size && ltb p.max_frame_size (2 ^ 30)) ≡ false =
        ground arith in
      let c : ltb p.max_frame_size n ≡ false = ground arith in rw (a, b, c)

  -- `process` up to the payload, where the frame fits and is there.
  pub process_step :
      (p : WebSocketParser) (b1 m n : ℕ)
      → p.buffer (p.begin + 1) ≡ b1
      → header_len b1 ≡ m
      → payload_length ntohll p.buffer (p.begin + 2) (payload_len_of b1) ≡ n
      → 2 ≤ m
      → m + n ≤ p.end - p.begin
      → m + n ≤ p.max_frame_size
      → p.max_frame_size < 2 ^ 30
      → process ntohll p ≡ process_payload ntohll p m n
  unfolding process
  process_step p b1 m n eb em en two there fits cap =
      let a : ltb (p.end - p.begin) 2 ≡ false = ground arith in
      rw a (
        ap
          (λ (b : ℕ).
            process_header ntohll p (header_len b)
              (payload_length ntohll p.buffer (p.begin + 2) (payload_len_of b)))
          eb
        ∙ ap₂ (process_header ntohll p) em en
        ∙ process_header_step p m n two there fits cap)

  pub payload_plain :
      (p : WebSocketParser) (m n : ℕ)
      → m + n ≤ p.end - p.begin
      → m + n ≤ p.max_frame_size
      → mask_of (p.buffer (p.begin + 1)) ≡ false
      → process_payload ntohll p m n
        ≡ got_frame
            (record p { begin = p.begin + (m + n); frame_size_hint = 0 })
            (record {
              start = p.begin + m;
              len = n;
              opcode = opcode_of (p.buffer p.begin);
              fin = fin_of (p.buffer p.begin);
            })
  unfolding process_payload
  payload_plain p m n there fits unmasked =
      let a : ltb p.max_frame_size (m + n) ≡ false = ground arith in
      let b : ltb (p.end - p.begin) (m + n) ≡ false = ground arith in rw (a, b, unmasked)

  pub payload_masked :
      (p : WebSocketParser) (m n at : ℕ)
      → m + n ≤ p.end - p.begin
      → m + n ≤ p.max_frame_size
      → mask_of (p.buffer (p.begin + 1)) ≡ true
      → p.begin + 2 + extended_len (payload_len_of (p.buffer (p.begin + 1))) ≡ at
      → process_payload ntohll p m n
        ≡ got_frame
            (record p {
              buffer = unmask p.buffer (λ j. p.buffer (at + j)) (p.begin + m) 0 n;
              begin = p.begin + (m + n);
              frame_size_hint = 0;
            })
            (record {
              start = p.begin + m;
              len = n;
              opcode = opcode_of (p.buffer p.begin);
              fin = fin_of (p.buffer p.begin);
            })
  unfolding process_payload
  payload_masked p m n at there fits has_mask e =
      let a : ltb p.max_frame_size (m + n) ≡ false = ground arith in
      let b : ltb (p.end - p.begin) (m + n) ≡ false = ground arith in rw (a, b, has_mask, e)
