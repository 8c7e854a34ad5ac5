-- ===== src/WebSocket/Queue.antt =====
-- That no byte is lost or sent twice, in whatever order frames are appended, flushes are asked for and
-- writes end.
use mathlib.Core.Path.{subst}
use cppsp_ng.Base.{
  ℕ, ◌+◌, ◌%◌, ◌^◌, ◌<◌, ◌≡◌, refl, sym, ap, ◌∙◌, inl, inr, Bool, true, false, Option, none, some,
  [], ◌∷◌, ◌++◌, append-nil, append_assoc, ◌==◌, Bool-cases, length, arith,
}
use cppsp_ng.Base.Bytes.{Bytes}
use cppsp_ng.WebSocket.Wire.{frame_bytes}
use cppsp_ng.WebSocket.Writer.{
  FrameWriter, curr_buffer, other_buffer, begin_flush, clear_written, write_done,
}
use cppsp_ng.WebSocket.Append.{append_frame, append_frame-Filled}

-- A writer and what has happened: the frames that were appended, the bytes handed to the stream, and those of
-- the write that is under way.
pub record System : Type 0 where
  pub writer : FrameWriter
  pub appended : Bytes
  pub sent : Bytes
  pub flying : Bytes

unfoldable pub hand_over : System → FrameWriter × Option Bytes → System
hand_over s (w, none) = record s { writer = w }
hand_over s (w, some b) = record s { writer = w; sent = s.sent ++ b; flying = b }

abbrev pub start : FrameWriter → System
start w = record { writer = w; appended = []; sent = []; flying = [] }

pub data Step : System → System → Type 0 where
  append :
      (opcode : ℕ) (payload : Bytes) (s : System)
      → length (curr_buffer s.writer) + (14 + length payload) < 2 ^ 32
      → Step s (record s {
        writer = append_frame opcode payload s.writer;
        appended = s.appended ++ frame_bytes true (opcode % 16) [] payload;
      })
  flush : (s : System) → Step s (hand_over s (begin_flush s.writer))
  done :
      (ok : Bool) (s : System)
      → s.writer.writing ≡ true
      → Step s (hand_over s (write_done ok s.writer))

pub data Reach : System → Type 0 where
  empty : (w : FrameWriter) → w.buffer1 ≡ [] → w.buffer2 ≡ [] → w.writing ≡ false → Reach (start w)
  next : {s t : System} → Reach s → Step s t → Reach t

-- What is in the buffer that no write reads: the bytes of the write under way.
unfoldable pub Waits : Bool → Bytes → Bytes → Type 0
Waits true other flying = other ≡ flying
Waits false other flying = other ≡ []

pub record Sound (s : System) : Type 0 where
  order : s.sent ++ curr_buffer s.writer ≡ s.appended
  waits : Waits s.writer.writing (other_buffer s.writer) s.flying

-- The fields that the handlers look at, told apart.
abbrev with_fields : Bool → Bool → Bytes → Bytes → System → System
with_fields u wr b1 b2 s = record s {
  writer = record s.writer { use_buffer2 = u; writing = wr; buffer1 = b1; buffer2 = b2 };
}

flush_fields :
    (u wr : Bool) (b1 b2 : Bytes) (s : System)
    → Sound (with_fields u wr b1 b2 s)
    → Sound (hand_over (with_fields u wr b1 b2 s) (begin_flush (with_fields u wr b1 b2 s).writer))
unfolding begin_flush hand_over Waits
flush_fields true true b1 b2 s h = record { order = h.order; waits = h.waits }
flush_fields false true b1 b2 s h = record { order = h.order; waits = h.waits }
flush_fields true false b1 [] s h = record { order = h.order; waits = h.waits }
flush_fields false false [] b2 s h = record { order = h.order; waits = h.waits }
flush_fields true false b1 (x ∷ b2) s h =
    let e : (length (x ∷ b2) == 0) ≡ false = ground arith in
    rw e (record {
      order = ap (λ (t : Bytes). (s.sent ++ (x ∷ b2)) ++ t) h.waits ∙ (append-nil _ ∙ h.order);
      waits = refl;
    })
flush_fields false false (x ∷ b1) b2 s h =
    let e : (length (x ∷ b1) == 0) ≡ false = ground arith in
    rw e (record {
      order = ap (λ (t : Bytes). (s.sent ++ (x ∷ b1)) ++ t) h.waits ∙ (append-nil _ ∙ h.order);
      waits = refl;
    })

flush-Sound : (s : System) → Sound s → Sound (hand_over s (begin_flush s.writer))
flush-Sound s h = let w = s.writer in flush_fields w.use_buffer2 w.writing w.buffer1 w.buffer2 s h

done_fields :
    (u ok q : Bool) (b1 b2 : Bytes) (s : System)
    → Sound (with_fields u true b1 b2 s)
    → Sound (
        hand_over
          (with_fields u true b1 b2 s)
          (write_done ok (record (with_fields u true b1 b2 s).writer { write_queued = q })))
unfolding write_done clear_written hand_over Waits
done_fields true false q b1 b2 s h = record { order = h.order; waits = refl }
done_fields true true false b1 b2 s h = record { order = h.order; waits = refl }
done_fields true true true b1 b2 s h =
    flush-Sound
      (record s {
        writer =
            clear_written (record (with_fields true true b1 b2 s).writer { write_queued = false });
      })
      (record { order = h.order; waits = refl })
done_fields false false q b1 b2 s h = record { order = h.order; waits = refl }
done_fields false true false b1 b2 s h = record { order = h.order; waits = refl }
done_fields false true true b1 b2 s h =
    flush-Sound
      (record s {
        writer =
            clear_written (record (with_fields false true b1 b2 s).writer { write_queued = false });
      })
      (record { order = h.order; waits = refl })

append-Sound :
    (opcode : ℕ) (payload : Bytes) (s : System)
    → length (curr_buffer s.writer) + (14 + length payload) < 2 ^ 32
    → Sound s
    → Sound (record s {
      writer = append_frame opcode payload s.writer;
      appended = s.appended ++ frame_bytes true (opcode % 16) [] payload;
    })
append-Sound opcode payload s fits h =
    let v = append_frame opcode payload s.writer in
    let (c, o, r) = append_frame-Filled opcode payload s.writer fits in
    let moved : Waits v.writing (other_buffer v) s.flying =
      subst (λ (b : Bool). Waits b (other_buffer v) s.flying) (sym r)
        (subst (λ (b : Bytes). Waits s.writer.writing b s.flying) (sym o) h.waits) in
    record {
      order =
          ap (λ (t : Bytes). s.sent ++ t) c
          ∙ (sym (append_assoc s.sent _ _)
              ∙ ap (λ (t : Bytes). t ++ frame_bytes true (opcode % 16) [] payload) h.order);
      waits = moved;
    }

done_when :
    (wr : Bool) (ok : Bool) (s : System)
    → wr ≡ true
    → Sound (record s { writer = record s.writer { writing = wr } })
    → Sound (
        hand_over
          (record s { writer = record s.writer { writing = wr } })
          (write_done ok (record s.writer { writing = wr })))
done_when false ok s e h = ground arith
done_when true ok s e h =
    let w = s.writer in done_fields w.use_buffer2 ok w.write_queued w.buffer1 w.buffer2 s h

empty-Waits : (wr : Bool) (b : Bytes) → wr ≡ false → b ≡ [] → Waits wr b []
unfolding Waits
empty-Waits false b e f = f
empty-Waits true b e f = f

empty-Sound :
    (w : FrameWriter) → w.buffer1 ≡ [] → w.buffer2 ≡ [] → w.writing ≡ false → Sound (start w)
empty-Sound w e f r = elim (Bool-cases w.use_buffer2) [
  | inl u ↦ record { order = rw u f; waits = empty-Waits w.writing (other_buffer w) r (rw u e) }
  | inr u ↦ record { order = rw u e; waits = empty-Waits w.writing (other_buffer w) r (rw u f) }
]

Reach-Sound : {s : System} → Reach s → Sound s
Reach-Sound (empty w e f r) = empty-Sound w e f r
Reach-Sound (next r (append opcode payload s fits)) =
    append-Sound opcode payload s fits (Reach-Sound r)
Reach-Sound (next r (flush s)) = flush-Sound s (Reach-Sound r)
Reach-Sound (next r (done ok s b)) = done_when s.writer.writing ok s b (Reach-Sound r)

-- In every state that is reached from a writer with empty buffers and no write under way, by appending
-- frames for which there is room below 2 ^ 32 bytes, asking for a flush and ending the write that is under
-- way (with success or not): the bytes handed to the stream so far, then those in the current buffer, are
-- the appended frames in their order; and the other buffer holds the bytes of the write that is under way,
-- unchanged, or nothing when no write is.
pub queue_lem :
    (s : System)
    → Reach s
    → (s.sent ++ curr_buffer s.writer ≡ s.appended)
      × Waits s.writer.writing (other_buffer s.writer) s.flying
queue_lem s r = let h = Reach-Sound r in (h.order, h.waits)
