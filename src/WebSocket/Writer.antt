-- ===== src/WebSocket/Writer.antt =====
-- `FrameWriter` of websocket.C and include/cppsp-ng/websocket.H. A `string_builder` is the bytes that it
-- holds; what its owner put into the space that `begin_append` reserved is an argument of `end_append`.
use cppsp_ng.Base.{
  ℕ, ◌+◌, ◌%◌, ◌^◌, Bool, true, false, not, ◌&&◌, Option, none, some, [], ◌∷◌, ◌++◌, ltb, leb, ◌==◌,
  if◌then◌else◌, take, length,
}
use cppsp_ng.Base.Bytes.{Bytes}
use cppsp_ng.WebSocket.Words.{swap16, htonll, store16, store64}

pub record FrameWriter : Type 0 where
  pub buffer1 : Bytes
  pub buffer2 : Bytes
  pub frame_begin : ℕ
  pub data_len : ℕ
  pub header_len : ℕ
  pub use_buffer2 : Bool
  pub closed : Bool
  pub writing : Bool
  pub write_queued : Bool

abbrev pub curr_buffer : FrameWriter → Bytes
curr_buffer w = if w.use_buffer2 then w.buffer2 else w.buffer1

-- The buffer that `currBuffer()` does not give.
abbrev pub other_buffer : FrameWriter → Bytes
other_buffer w = if w.use_buffer2 then w.buffer1 else w.buffer2

abbrev pub set_curr : Bytes → FrameWriter → FrameWriter
set_curr b w = if w.use_buffer2 then record w { buffer2 = b } else record w { buffer1 = b }

-- `hdrlen`
unfoldable pub writer_header_len : ℕ → ℕ
writer_header_len len =
    2 + (if ltb 125 len && leb len 0xffff then 2 else 0) + (if ltb 0xffff len then 8 else 0)

unfoldable pub begin_append : ℕ → FrameWriter → FrameWriter
unfolding writer_header_len
begin_append len w = record w {
  frame_begin = length (curr_buffer w);
  data_len = len;
  header_len = writer_header_len len;
}

-- The bytes of the header: FIN is set, the three reserved bits and the mask bit are not.
unfoldable pub header_bytes : ℕ → ℕ → Bytes
header_bytes opcode len =
    let b0 = 128 + opcode % 2 ^ 4 in
    if ltb 125 len && leb len 0xffff
    then b0 ∷ 126 ∷ store16 (swap16 (len % 2 ^ 16))
    else if ltb 0xffff len
    then b0 ∷ 127 ∷ store64 (htonll len)
    else b0 ∷ len % 2 ^ 7 ∷ []

-- `end` is a `uint32_t`.
unfoldable pub end_append : ℕ → Bytes → FrameWriter → FrameWriter
unfolding header_bytes
end_append opcode payload w =
    let end = (w.frame_begin + w.header_len + w.data_len) % 2 ^ 32 in
    set_curr
      (take end (take w.frame_begin (curr_buffer w) ++ (header_bytes opcode w.data_len ++ payload)))
      w

-- `beginFlush`: the writer, and what it hands to `streamWriteAll`.
unfoldable pub begin_flush : FrameWriter → FrameWriter × Option Bytes
begin_flush w =
    if w.writing
    then (record w { write_queued = true }, none)
    else if length (curr_buffer w) == 0
    then (w, none)
    else (record w { writing = true; use_buffer2 = not w.use_buffer2 }, some (curr_buffer w))

-- The first lines of the callback of a write: the buffer that was written is emptied.
unfoldable pub clear_written : FrameWriter → FrameWriter
clear_written w =
    if w.use_buffer2
    then record w { buffer1 = []; writing = false }
    else record w { buffer2 = []; writing = false }

-- The callback; `ok` says that its argument is positive.
unfoldable pub write_done : Bool → FrameWriter → FrameWriter × Option Bytes
unfolding clear_written begin_flush
write_done ok w =
    let v = clear_written w in
    if not ok
    then (record v { closed = true }, none)
    else if w.write_queued
    then begin_flush (record v { write_queued = false })
    else (v, none)
