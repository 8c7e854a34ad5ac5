-- ===== src/WebSocket/Bounds.antt =====
-- What `process` may answer on any data at all, well-formed or not.
use cppsp_ng.Base.{ℕ, ◌+◌, ◌-◌, ◌^◌, ◌≤◌, ◌<◌, ◌≡◌, ◌⊎◌}
use cppsp_ng.Base.Bytes.{Bytes}
use cppsp_ng.Base.Memory.{Memory}
use cppsp_ng.WebSocket.Parser.{
  WebSocketParser, Processed, no_frame, got_frame, length_error, assertion_failed,
}
use cppsp_ng.WebSocket.Room.{IsPlaced}

-- The answers: no frame, and nothing has moved; a frame that lies in the data, behind a header, and is no longer
-- than allowed, with the parser behind it and nothing changed but the bytes of its payload; a frame that is too
-- long, and nothing has moved; or a limit that is out of range.
abbrev pub Bounded : WebSocketParser → Processed → Type 0
Bounded p (no_frame q) =
    (q.begin ≡ p.begin) × (q.end ≡ p.end) × (q.size ≡ p.size) × (q.buffer ≡ p.buffer)
Bounded p (got_frame q f) =
    IsPlaced q
    × (p.begin + 2 ≤ f.start)
    × (f.start + f.len ≡ q.begin)
    × (q.begin - p.begin ≤ p.max_frame_size)
    × (q.end ≡ p.end)
    × ((i : ℕ) → (i < f.start) ⊎ (q.begin ≤ i) → q.buffer i ≡ p.buffer i)
Bounded p (length_error q) = (q.begin ≡ p.begin) × (q.end ≡ p.end) × (q.buffer ≡ p.buffer)
Bounded p assertion_failed = (p.max_frame_size ≡ 0) ⊎ (2 ^ 30 ≤ p.max_frame_size)

-- An answer, with another buffer in its parser.
abbrev pub put_back : Memory → Processed → Processed
put_back m (no_frame q) = no_frame (record q { buffer = m })
put_back m (got_frame q f) = got_frame (record q { buffer = m }) f
put_back m (length_error q) = length_error (record q { buffer = m })
put_back m assertion_failed = assertion_failed

-- Another memory with the same data in it.
abbrev pub SameData : WebSocketParser → Memory → Type 0
SameData p mem = (i : ℕ) → p.begin ≤ i → i < p.end → mem i ≡ p.buffer i

module _ (ntohll : ℕ → ℕ) (p : WebSocketParser) (mem : Memory) (same : SameData p mem) where
  abbrev moved : WebSocketParser
  moved = record p { buffer = mem }
