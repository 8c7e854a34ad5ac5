-- ===== src/WebSocket/Tests.antt =====
-- The theorems on the frame parser and the frame writer at concrete states.
use cppsp_ng.Base.{
  some, ℕ, ◌+◌, ◌*◌, ◌^◌, ◌≤◌, ◌<◌, ◌≡◌, refl, ap, ◌∙◌, inr, true, false, [], ◌∷◌, ◌++◌, length,
  ltb, if◌then◌else◌, arith,
}
use cppsp_ng.Base.Bytes.{Bytes, All, IsByte, codes}
use cppsp_ng.Base.Memory.{Memory, fill, span}
use cppsp_ng.WebSocket.Words.{htonll, store64, big_endian64, store64-htonll}
use cppsp_ng.WebSocket.Parser.{begin_add_data, WebSocketParser, process}
use cppsp_ng.WebSocket.Wire.{frame_bytes, short_length, long_length, masked}
use cppsp_ng.WebSocket.Receive.{Received, IsKey, process-frame_bytes}
use cppsp_ng.WebSocket.Room.{IsPlaced, Offers, begin_add_data-Offers}
use cppsp_ng.WebSocket.Writer.{FrameWriter, curr_buffer, other_buffer, begin_flush}
use cppsp_ng.WebSocket.Append.{append_frame, append_frame-Filled}
use cppsp_ng.WebSocket.Queue.{
  System, hand_over, start, append, flush, Reach, empty, next, Waits, queue_lem,
}

-- A concrete `ntohll`: the number whose bytes, highest first, are those in memory.
abbrev number : ℕ → Bytes → ℕ
number acc [] = acc
number acc (b ∷ bs) = number (acc * 256 + b) bs

abbrev ntohll : ℕ → ℕ
ntohll x = number 0 (store64 x)

number-big_endian64 : (x : ℕ) → x < 2 ^ 64 → number 0 (big_endian64 x) ≡ x
unfolding big_endian64
number-big_endian64 x h = omega arith

ntohll-htonll : (x : ℕ) → x < 2 ^ 64 → ntohll (htonll x) ≡ x
ntohll-htonll x h = ap (number 0) (store64-htonll x) ∙ number-big_endian64 x h

abbrev key : Bytes
key = 1 ∷ 2 ∷ 3 ∷ 4 ∷ []

abbrev received : WebSocketParser
received = record {
  buffer = fill (λ _. 0) 5 (frame_bytes true 1 key (codes "hello"));
  begin = 5;
  end = 20;
  size = 4096;
  frame_size_hint = 0;
  max_frame_size = 16384;
}

key-IsKey : IsKey key
key-IsKey = (ground arith, inr refl)

hello-IsByte : All IsByte (codes "hello")
hello-IsByte = ground arith

held :
    span received.buffer received.begin (length (frame_bytes true 1 key (codes "hello")))
    ≡ frame_bytes true 1 key (codes "hello")
unfolding frame_bytes fill short_length long_length masked
held = refl

there : length (frame_bytes true 1 key (codes "hello")) ≤ 11
unfolding frame_bytes fill short_length long_length masked
there = omega arith

process-frame_bytes_example :
    Received received true 1
      (codes "hello")
      (length (frame_bytes true 1 key (codes "hello")))
      (process ntohll received)
process-frame_bytes_example =
    process-frame_bytes ntohll ntohll-htonll received true 1 key (codes "hello") (omega arith)
      key-IsKey hello-IsByte held (omega (arith, there)) (omega (arith, there)) (omega arith)

received-IsPlaced : IsPlaced received
received-IsPlaced = record { begin_le = omega arith; end_le = omega arith; size_pos = omega arith }

-- The same data, with 7 in all of the memory outside.
abbrev elsewhere : Memory
elsewhere i = if ltb i received.end then received.buffer i else 7

begin_add_data-Offers_example :
    (q : WebSocketParser) × (first : ℕ) × (room : ℕ) × (begin_add_data (λ _. 0) received
      ≡ some (q, first, room))
    × Offers received q first room
begin_add_data-Offers_example =
    begin_add_data-Offers (λ _. 0) received received-IsPlaced (omega arith) (omega arith)

abbrev writer : FrameWriter
writer = record {
  buffer1 = [];
  buffer2 = [];
  frame_begin = 0;
  data_len = 0;
  header_len = 0;
  use_buffer2 = false;
  closed = false;
  writing = false;
  write_queued = false;
}

append_frame-Filled_example :
    (curr_buffer (append_frame 1 (codes "hi") writer)
      ≡ curr_buffer writer ++ frame_bytes true 1 [] (codes "hi"))
    × (other_buffer (append_frame 1 (codes "hi") writer) ≡ other_buffer writer)
    × ((append_frame 1 (codes "hi") writer).writing ≡ writer.writing)
append_frame-Filled_example = append_frame-Filled 1 (codes "hi") writer (omega arith)

abbrev appended : System
appended = record (start writer) {
  writer = append_frame 1 (codes "hi") writer;
  appended = [] ++ frame_bytes true 1 [] (codes "hi");
}

abbrev flushed : System
flushed = hand_over appended (begin_flush appended.writer)

flushed-Reach : Reach flushed
flushed-Reach =
    next (next (empty writer refl refl refl) (append 1 (codes "hi") (start writer) (omega arith)))
      (flush appended)

queue_example :
    (flushed.sent ++ curr_buffer flushed.writer ≡ flushed.appended)
    × Waits flushed.writer.writing (other_buffer flushed.writer) flushed.flying
queue_example = queue_lem flushed flushed-Reach
