-- ===== src/WebSocket/Parser.antt =====
-- `WebSocketParser` of websocket.C and include/cppsp-ng/websocket.H. `ntohll` comes from a library that
-- is not part of the repository. The indices lie between 0 and the size of the buffer.
use cppsp_ng.Base.{
  ℕ, zero, suc, ◌+◌, ◌-◌, ◌*◌, ◌%◌, ◌^◌, Bool, ◌&&◌, ◌||◌, not, Option, none, some, bit_xor, ltb,
  leb, ◌==◌, if◌then◌else◌,
}
use cppsp_ng.Base.Memory.{Memory, poke, copy_to_start}
use cppsp_ng.Base.Signed.{twice, int_less}
use cppsp_ng.WebSocket.Words.{swap16, load16, load64}

pub record WebSocketParser : Type 0 where
  pub buffer : Memory
  pub begin : ℕ
  pub end : ℕ
  pub size : ℕ
  pub frame_size_hint : ℕ
  pub max_frame_size : ℕ

-- The constructor, which calls `reset`; `fresh` is what the new buffer holds.
unfoldable pub reset : WebSocketParser → WebSocketParser
reset p = record p { begin = 0; end = 0 }

unfoldable pub new_parser : Memory → WebSocketParser
unfolding reset
new_parser fresh = reset (record {
  buffer = fresh;
  begin = 0;
  end = 0;
  size = 4096;
  frame_size_hint = 0;
  max_frame_size = 1024 * 16;
})

-- The new size in `upsize(minCapacity)`: doubled once, and then by `while(bufferSize < minCapacity)`,
-- with fuel; `none` means that the fuel ran out. The sizes are `int`s, given by their 32 bits.
unfoldable pub double_until : ℕ → ℕ → ℕ → Option ℕ
double_until zero size min_capacity = none
double_until (suc fuel) size min_capacity =
    let more = double_until fuel (twice size) min_capacity in
    if int_less size min_capacity then more else some size

unfoldable pub upsize : ℕ → ℕ → Option ℕ
unfolding double_until
upsize size min_capacity = double_until (suc min_capacity) (twice size) min_capacity

-- `beginAddData`: the parser, and the free space as its start and its length.
unfoldable pub begin_add_data : Memory → WebSocketParser → Option (WebSocketParser × ℕ × ℕ)
begin_add_data fresh p =
    let cur = p.end - p.begin in
    let hint = p.frame_size_hint in
    let moved = copy_to_start p.buffer p.buffer p.begin cur in
    let grown : Option (WebSocketParser × ℕ × ℕ) = elim (upsize p.size (twice hint)) [
      | none ↦ none
      | some size ↦ some (
        record p {
          buffer = copy_to_start fresh p.buffer p.begin cur;
          size = size;
          begin = 0;
          end = cur;
        },
        cur,
        size - cur,
      )
    ] in
    if leb p.end p.begin
    then some (record p { begin = 0; end = 0 }, 0, p.size)
    else if int_less p.size (twice cur) || (not (hint == 0) && int_less p.size (twice hint))
    then grown
    else some (
      record p { buffer = if ltb 0 p.begin then moved else p.buffer; begin = 0; end = cur },
      cur,
      p.size - cur,
    )

-- `endAddData`; `none` is the assertion that fails.
unfoldable pub end_add_data : ℕ → WebSocketParser → Option WebSocketParser
end_add_data len p =
    if leb (p.end + len) p.size then some (record p { end = p.end + len }) else none

-- The loop of `unmask` over the `n` bytes from `at` on, which have the index `i` and so on; `key` is where
-- the four bytes of the key stand in the memory that it was read from.
unfoldable pub unmask : Memory → (ℕ → ℕ) → ℕ → ℕ → ℕ → Memory
unmask mem key at i zero = mem
unmask mem key at i (suc n) =
    unmask (poke mem at (bit_xor (mem at) (key (i % 4)))) key (suc at) (suc i) n

-- `WSFrame`, with the place of the payload for `data`.
pub record Frame : Type 0 where
  pub start : ℕ
  pub len : ℕ
  pub opcode : ℕ
  pub fin : Bool

-- What a call of `process` does: it returns false or true, throws `length_error`, or stops at the assertion
-- on `maxFrameSize`.
pub data Processed : Type 0 where
  no_frame : WebSocketParser → Processed
  got_frame : WebSocketParser → Frame → Processed
  length_error : WebSocketParser → Processed
  assertion_failed : Processed

-- The fields of `ws_header1`: bits of the first two bytes.
abbrev pub opcode_of : ℕ → ℕ
opcode_of b = b % 2 ^ 4

abbrev pub fin_of : ℕ → Bool
fin_of b = leb 128 b

abbrev pub payload_len_of : ℕ → ℕ
payload_len_of b = b % 2 ^ 7

abbrev pub mask_of : ℕ → Bool
mask_of b = leb 128 b

-- `pLen2`, and the size of the header.
abbrev pub extended_len : ℕ → ℕ
extended_len len1 = if len1 == 126 then 2 else if len1 == 127 then 8 else 0

abbrev pub header_len : ℕ → ℕ
header_len b = 2 + extended_len (payload_len_of b) + (if mask_of b then 4 else 0)

module _ (ntohll : ℕ → ℕ) where
  -- The `switch (pLen1)`.
  unfoldable pub payload_length : Memory → ℕ → ℕ → ℕ
  unfolding swap16 load16 load64
  payload_length mem a len1 =
      if len1 == 126
      then swap16 (load16 mem a)
      else if len1 == 127
      then ntohll (load64 mem a)
      else len1

  -- From `currFrameSizeHint = minLen + payloadLen` on.
  unfoldable pub process_payload : WebSocketParser → ℕ → ℕ → Processed
  unfolding unmask
  process_payload p min_len payload_len =
      let h = min_len + payload_len in
      let q = record p { frame_size_hint = h } in
      let b0 = p.buffer p.begin in
      let b1 = p.buffer (p.begin + 1) in
      let key = λ (j : ℕ). p.buffer (p.begin + 2 + extended_len (payload_len_of b1) + j) in
      let payload = p.begin + min_len in
      let unmasked = unmask p.buffer key payload 0 payload_len in
      if ltb p.max_frame_size h
      then length_error q
      else if ltb (p.end - p.begin) h
      then no_frame q
      else got_frame
          (record p {
            buffer = if mask_of b1 then unmasked else p.buffer;
            begin = p.begin + h;
            frame_size_hint = 0;
          })
          (record { start = payload; len = payload_len; opcode = opcode_of b0; fin = fin_of b0 })

  -- Behind the first test, with the size of the header and the length that it gives.
  unfoldable pub process_header : WebSocketParser → ℕ → ℕ → Processed
  unfolding process_payload
  process_header p min_len payload_len =
      if ltb (p.end - p.begin) min_len
      then no_frame p
      else if not (ltb 0 p.max_frame_size && ltb p.max_frame_size (2 ^ 30))
      then assertion_failed
      else if ltb p.max_frame_size payload_len
      then length_error p
      else process_payload p min_len payload_len

  unfoldable pub process : WebSocketParser → Processed
  unfolding payload_length process_header
  process p =
      let b1 = p.buffer (p.begin + 1) in
      if ltb (p.end - p.begin) 2
      then no_frame p
      else process_header p (header_len b1)
          (payload_length p.buffer (p.begin + 2) (payload_len_of b1))
