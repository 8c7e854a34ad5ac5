-- ===== src/Connection/Reply.antt =====
-- `finish(true)`: the reply that is written, and the page that is written where the head does not fit.
use mathlib.Core.Path.{subst, ap₂}
use cppsp_ng.Base.{
  ℕ, suc, ◌+◌, ◌*◌, ◌^◌, ◌≤◌, ◌<◌, ◌≡◌, ◌⊎◌, refl, sym, ap, ◌∙◌, Bool, true, false, Bool-cases, inl,
  inr, Option, some, ◌∷◌, ◌++◌, length, length-append, ltb, cons-eq, arith,
}
use cppsp_ng.Base.Bytes.{Bytes, codes}
use cppsp_ng.Base.Memory.{Memory}
use cppsp_ng.Decimal.Digits.{IsLog}
use cppsp_ng.Markup.Defs.{html_written}
use cppsp_ng.Markup.Html.{html_escape-written, length-html_written-le}
use cppsp_ng.Response.Defs.{other, Response, View, initial_space}
use cppsp_ng.Response.Head.{added, first_lines}
use cppsp_ng.Response.Compose.{Tail, Replies, SameBody, compose_headers_lem}
use cppsp_ng.Connection.Defs.{
  Connection, Worker, too_large, error_start, error_page, error_response, fail_with, with_head,
  write_reply, reply, handle_exception, finish,
}
use cppsp_ng.Connection.Safe.{Free, Safe, WaitsForWrite, closed}

-- The page of `defaultHandleException`.
abbrev pub error_body : Bytes → Bytes
error_body message = (error_start ++ html_written message) ++ codes "</h2></body></html>"

abbrev pub error_reply : Bytes → Response → Response
error_reply message r = record r {
  buffer = error_body message;
  status = other (codes "500 Server Error");
  content_type = other (codes "text/html");
}

module _ {ℓ} {Fn : Type ℓ} where
  write_reply-Safe :
      (r : Response) (sp len : ℕ) (s : Connection Fn) → Free s → Safe (write_reply r sp len s)
  unfolding write_reply
  write_reply-Safe r sp len s f = record {
    one =
        ap (λ (b : Bool). s.reads + suc s.writes + s.calls + closed b) f.opened
        ∙ omega (arith, f.no_reads, f.no_writes, f.no_calls);
    pooled_eq = f.not_pooled ∙ ap closed (sym f.opened);
    parser_valid = f.parser_free;
    room = λ h. absurd (omega (arith, f.no_reads));
    headers_le = λ h. absurd (omega (arith, f.no_calls));
  }

  -- Another response.
  pub Free-response : {s : Connection Fn} (r : Response) → Free s → Free (record s { response = r })
  Free-response r f = record {
    no_reads = f.no_reads;
    no_writes = f.no_writes;
    no_calls = f.no_calls;
    opened = f.opened;
    not_pooled = f.not_pooled;
    parser_free = f.parser_free;
  }

  -- What is written to the socket: the head as HTTP writes it, with the length of the body, and the body.
  abbrev pub Writes : Worker Fn → Connection Fn → Connection Fn → Type 0
  Writes w s t =
      t.written
      ≡ ((first_lines s.response ++ Tail w.log10 s.response (length s.response.buffer) w.date)
          ++ s.response.buffer)
        ∷ s.written

  -- What is written where the first lines do not fit: the page for that, with a response that has the head so far.
  abbrev pub WritesTooLarge : Worker Fn → Connection Fn → Connection Fn → Type 0
  WritesTooLarge w s t =
      (q : Response) × (added q ≡ Tail w.log10 s.response (length s.response.buffer) w.date)
      × (q.keep_alive ≡ s.response.keep_alive)
      × Writes w (record s { response = error_reply too_large q }) t

  with_head_fits :
      (w : Worker Fn) (finish : Connection Fn → Option (Connection Fn)) (s : Connection Fn)
      (out : Response × View)
      → Free s
      → Replies w.log10 s.response (length s.response.buffer) w.date false out
      → SameBody s.response out.0
      → (t : Connection Fn) × (with_head finish s (some out) ≡ some t)
        × Safe t
        × WaitsForWrite t
        × Writes w s t
        × (t.request ≡ s.request)
  unfolding write_reply
  with_head_fits w finish s (q, view) f (sp, len, e, text, tail) same = (
    write_reply q sp len s,
    ap (λ (v : View). with_head finish s (some (q, v))) e,
    write_reply-Safe q sp len s f,
    (f.opened, f.no_reads, ap suc f.no_writes, f.no_calls),
    cons-eq (ap₂ (λ (a b : Bytes). a ++ b) text same.buffer_same) refl,
    refl,
  )

  module _ (w : Worker Fn) (bound : ℕ) (log : IsLog w.log10 bound) (big : 2 ^ 31 ≤ bound) where
    -- `finish(true)` where the first lines fit.
    reply_fits :
        (fuel : ℕ) (s : Connection Fn)
        → Free s
        → initial_space ≤ s.response.headers_len
        → length s.response.buffer < 2 ^ 31
        → length (first_lines s.response) ≤ initial_space
        → (t : Connection Fn) × (reply w (suc fuel) s ≡ some t)
          × Safe t
          × WaitsForWrite t
          × Writes w s t
          × (t.request ≡ s.request)
    unfolding reply
    reply_fits fuel s f space short fits =
        let (out, e, replies, same) =
          compose_headers_lem w.log10 bound log s.response (length s.response.buffer) w.date space
            (omega arith) in
        let no : ltb initial_space (length (first_lines s.response)) ≡ false = ground arith in
        let (t, g, safe, waits, writes, req) =
          with_head_fits w (reply w fuel) s out f
            (subst
              (λ (b : Bool). Replies w.log10 s.response (length s.response.buffer) w.date b out) no
              replies)
            same in
        (
          t,
          ap (λ (o : Option (Response × View)). with_head (reply w fuel) s o) e ∙ g,
          safe,
          waits,
          writes,
          req,
        )

pub error_reply-fits :
    (message : Bytes) (r : Response) (b : Bool)
    → length (first_lines (error_reply message (record r { keep_alive = b }))) ≤ initial_space
unfolding first_lines
error_reply-fits message r true = omega arith
error_reply-fits message r false = omega arith

error_body_short :
    (message : Bytes) → 5 * length message < 2 ^ 30 → length (error_body message) < 2 ^ 31
error_body_short message h =
    let a = length-append (error_start ++ html_written message) (codes "</h2></body></html>") in
    let b = length-append error_start (html_written message) in
    omega (arith, a, b, length-html_written-le message)

error_response_lem :
    (message : Bytes) (r : Response)
    → 5 * length message < 2 ^ 30
    → error_response message r ≡ some (error_reply message r)
unfolding error_response
error_response_lem message r h =
    ap (error_page r) (html_escape-written message error_start (omega arith))

module _ {ℓ} {Fn : Type ℓ} (w : Worker Fn) (bound : ℕ) (log : IsLog w.log10 bound)
    (big : 2 ^ 31 ≤ bound) where
  -- A page for an exception is always written.
  fail_lem :
      (fuel : ℕ) (message : Bytes) (s : Connection Fn)
      → Free s
      → initial_space ≤ s.response.headers_len
      → 5 * length message < 2 ^ 30
      → (t : Connection Fn) × (fail_with (reply w (suc fuel)) s (error_response message s.response)
          ≡ some t)
        × Safe t
        × WaitsForWrite t
        × Writes w (record s { response = error_reply message s.response }) t
        × (t.request ≡ s.request)
  fail_lem fuel message s f space short =
      let q = error_reply message s.response in
      let (t, e, safe, waits, writes, req) =
        reply_fits w bound log big fuel (record s { response = q }) (Free-response q f) space
          (error_body_short message short)
          (error_reply-fits message s.response s.response.keep_alive) in
      (
        t,
        ap (fail_with (reply w (suc fuel)) s) (error_response_lem message s.response short) ∙ e,
        safe,
        waits,
        writes,
        req,
      )

  with_head_long :
      (s : Connection Fn) (out : Response × View)
      → Free s
      → initial_space ≤ s.response.headers_len
      → Replies w.log10 s.response (length s.response.buffer) w.date true out
      → SameBody s.response out.0
      → (t : Connection Fn) × (with_head (reply w 1) s (some out) ≡ some t)
        × Safe t
        × WaitsForWrite t
        × WritesTooLarge w s t
        × (t.request ≡ s.request)
  with_head_long s (q, view) f space (e, tail) same =
      let (t, g, safe, waits, writes, req) =
        fail_lem 0 too_large (record s { response = q }) (Free-response q f)
          (omega (arith, same.len_le)) (omega arith) in
      (
        t,
        ap (λ (v : View). with_head (reply w 1) s (some (q, v))) e ∙ g,
        safe,
        waits,
        (q, tail, same.keep_alive_same, writes),
        req,
      )

  reply_long :
      (s : Connection Fn)
      → Free s
      → initial_space ≤ s.response.headers_len
      → length s.response.buffer < 2 ^ 31
      → ltb initial_space (length (first_lines s.response)) ≡ true
      → (t : Connection Fn) × (reply w 2 s ≡ some t)
        × Safe t
        × WaitsForWrite t
        × WritesTooLarge w s t
        × (t.request ≡ s.request)
  unfolding reply
  reply_long s f space short long =
      let (out, e, replies, same) =
        compose_headers_lem w.log10 bound log s.response (length s.response.buffer) w.date space
          (omega arith) in
      let (t, g, safe, waits, writes, req) =
        with_head_long s out f space
          (subst (λ (b : Bool). Replies w.log10 s.response (length s.response.buffer) w.date b out)
            long replies)
          same in
      (
        t,
        ap (λ (o : Option (Response × View)). with_head (reply w 1) s o) e ∙ g,
        safe,
        waits,
        writes,
        req,
      )

  -- `finish(true)` in a callback, with the free space in front of the headers, a body of less than 2^31 bytes and a `log10` that is
  -- right up to there: it hands one reply to the socket and waits for the end of that write, and for nothing else; the request is as
  -- before. Where the first lines fit into the free space, the reply is the head, with the length of the body as its
  -- content length, and then the body. Otherwise it is the page that says so; its head still
  -- holds the lines that had been added, the date, and the content length of the body, before its own.
  pub finish_lem :
      (fresh : Memory) (s : Connection Fn)
      → Free s
      → initial_space ≤ s.response.headers_len
      → length s.response.buffer < 2 ^ 31
      → (t : Connection Fn) × (finish w fresh true s ≡ some t)
        × Safe t
        × WaitsForWrite t
        × (t.request ≡ s.request)
        × ((length (first_lines s.response) ≤ initial_space) × Writes w s t
            ⊎ (initial_space < length (first_lines s.response)) × WritesTooLarge w s t)
  unfolding finish
  finish_lem fresh s f space short =
      elim (Bool-cases (ltb initial_space (length (first_lines s.response)))) [
        | inl long ↦
            let (t, e, safe, waits, writes, req) = reply_long s f space short long in
            (t, e, safe, waits, req, inr (ground arith, writes))
        | inr fits ↦
            let (t, e, safe, waits, writes, req) =
              reply_fits w bound log big 1 s f space short (ground arith) in
            (t, e, safe, waits, req, inl (ground arith, writes))
      ]

  -- `handleException` in a callback, with the free space in front of the headers and a message of less than 2^30 / 5 bytes: the page
  -- for the exception is written, with the message escaped and with its own length, and the connection waits for the end of that write,
  -- and for nothing else.
  pub handle_exception_lem :
      (message : Bytes) (s : Connection Fn)
      → Free s
      → initial_space ≤ s.response.headers_len
      → 5 * length message < 2 ^ 30
      → (t : Connection Fn) × (handle_exception w message s ≡ some t)
        × Safe t
        × WaitsForWrite t
        × Writes w (record s { response = error_reply message s.response }) t
  unfolding handle_exception
  handle_exception_lem message s f space short =
      let (t, e, safe, waits, writes, req) = fail_lem 1 message s f space short in
      (t, e, safe, waits, writes)
