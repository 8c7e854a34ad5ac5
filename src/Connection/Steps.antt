-- ===== src/Connection/Steps.antt =====
-- A connection with its socket and its handlers, as steps, and what holds in all the states that it reaches.
use mathlib.Core.Path.{subst}
use cppsp_ng.Base.{
  ℕ, ◌+◌, ◌-◌, ◌*◌, ◌^◌, ◌≤◌, ◌<◌, ◌≡◌, refl, sym, ap, ◌∙◌, Bool, true, false, Option, none, some,
  of_some, [], length, arith,
}
use cppsp_ng.Base.Bytes.{Bytes}
use cppsp_ng.Base.Memory.{Memory}
use cppsp_ng.Decimal.Digits.{IsLog}
use cppsp_ng.Http.Defs.{HttpParser, reset}
use cppsp_ng.Http.Valid.{reset-IsValid}
use cppsp_ng.Request.Defs.{Request}
use cppsp_ng.Cache.Defs.{RouteCache}
use cppsp_ng.Response.Defs.{Response, initial_space}
use cppsp_ng.Connection.Defs.{
  Connection, Worker, start_connection, stop, read_cb, write_done, finish, handle_exception,
}
use cppsp_ng.Connection.Safe.{Free, Safe, closed, read_ends, write_ends, call_ends}
use cppsp_ng.Connection.Reply.{finish_lem, handle_exception_lem}
use cppsp_ng.Connection.Answer.{
  Leads, stop-Safe, start-Safe, read_cb_lem, request_completed_lem, write_done_lem,
}

-- The end of an operation that is under way: the callback, with that operation taken away.
abbrev pub read_done {ℓ} : {Fn : Type ℓ} → Connection Fn → Connection Fn
read_done s = record s { reads = s.reads - 1 }

abbrev pub written_done {ℓ} : {Fn : Type ℓ} → Connection Fn → Connection Fn
written_done s = record s { writes = s.writes - 1 }

abbrev pub called_done {ℓ} : {Fn : Type ℓ} → Connection Fn → Connection Fn
called_done s = record s { calls = s.calls - 1 }

-- What can happen while something is under way, and the callback that runs. A handler may change the response, but not
-- cut into the free space of its headers, and ends with `finish`, `handleException` or `abort`. The text of a body and of an exception are shorter than an `int` can tell.
pub data Event {ℓ} {Fn : Type ℓ} (w : Worker Fn) (s : Connection Fn)
    : Option (Connection Fn) → Type ℓ where
  received :
      (fresh : Memory) (bytes : Bytes)
      → 1 ≤ s.reads
      → s.parser.end + length bytes ≤ s.parser.size
      → Event w s (read_cb w fresh bytes (read_done s))
  wrote :
      (fresh : Memory) (ok : Bool)
      → 1 ≤ s.writes
      → Event w s (write_done w fresh ok (written_done s))
  responded :
      (r : Response)
      → 1 ≤ s.calls
      → initial_space ≤ r.headers_len
      → Event w s (some (record s { response = r }))
  finished :
      (fresh : Memory) (flush : Bool)
      → 1 ≤ s.calls
      → length s.response.buffer < 2 ^ 31
      → Event w s (finish w fresh flush (called_done s))
  raised :
      (message : Bytes)
      → 1 ≤ s.calls
      → 5 * length message < 2 ^ 30
      → Event w s (handle_exception w message (called_done s))
  aborted : 1 ≤ s.calls → Event w s (some (stop (called_done s)))

-- A connection as its constructor makes it: the buffer of the headers is empty, that of the parser has 4096 bytes, and
-- the other fields hold anything.
abbrev pub new_connection {ℓ} :
    {Fn : Type ℓ} → HttpParser → Request → Response → RouteCache Fn → Connection Fn
new_connection p q r cache = record {
  parser = record p { size = 4096 };
  request = q;
  response = record r { headers_len = 0 };
  cache = cache;
  handler = none;
  reads = 0;
  writes = 0;
  calls = 0;
  is_open = true;
  pooled = 0;
  written = [];
}

-- A connection that is taken out of the pool, with the cache as it is by then.
abbrev pub taken {ℓ} : {Fn : Type ℓ} → RouteCache Fn → Connection Fn → Connection Fn
taken cache s = record s { cache = cache; is_open = true; pooled = s.pooled - 1 }

-- The states from the start of a connection on, which is new, or was closed and is taken out of the pool.
pub data Reached {ℓ} {Fn : Type ℓ} (w : Worker Fn) : Connection Fn → Type ℓ where
  started :
      (fresh : Memory) (p : HttpParser) (q : Request) (r : Response) (cache : RouteCache Fn)
      → Reached w (start_connection fresh (new_connection p q r cache))
  reused :
      (fresh : Memory) (cache : RouteCache Fn) {s : Connection Fn}
      → Reached w s
      → s.is_open ≡ false
      → Reached w (start_connection fresh (taken cache s))
  next :
      {s t : Connection Fn} {o : Option (Connection Fn)}
      → Reached w s
      → Event w s o
      → o ≡ some t
      → Reached w t

module _ {ℓ} {Fn : Type ℓ} (w : Worker Fn) (bound : ℕ) (log : IsLog w.log10 bound)
    (big : 2 ^ 31 ≤ bound) where
  responded-Safe :
      {s : Connection Fn} (r : Response)
      → Safe s
      → initial_space ≤ r.headers_len
      → Safe (record s { response = r })
  responded-Safe r v le = record {
    one = v.one;
    pooled_eq = v.pooled_eq;
    parser_valid = v.parser_valid;
    room = v.room;
    headers_le = λ h. le;
  }

  taken-Free :
      (cache : RouteCache Fn) {s : Connection Fn}
      → Safe s
      → s.is_open ≡ false
      → Free (record (taken cache s) { parser = reset s.parser })
  taken-Free cache {s} v e =
      let gone : closed s.is_open ≡ 1 = ap closed e in
      record {
        no_reads = omega (arith, v.one);
        no_writes = omega (arith, v.one);
        no_calls = omega (arith, v.one);
        opened = refl;
        not_pooled = omega (arith, v.pooled_eq);
        parser_free = reset-IsValid s.parser v.parser_valid.size_pos;
      }

  -- With a `log10` that is right below 2^31: in a safe state, whatever event comes, its callback ends with a result,
  -- no assertion fails, and the state behind it is safe.
  pub Event-Leads :
      {s : Connection Fn} {o : Option (Connection Fn)} → Safe s → Event w s o → Leads o
  Event-Leads {s} v (received fresh bytes h room) =
      read_cb_lem w bound log big fresh bytes (read_done s) (read_ends v h) room
  Event-Leads {s} v (wrote fresh ok h) =
      write_done_lem w bound log big fresh ok (written_done s) (write_ends v h)
  Event-Leads v (responded r h le) = (_, refl, responded-Safe r v le)
  Event-Leads {s} v (finished fresh true h short) =
      let (t, e, safe, waits, req, out) =
        finish_lem w bound log big fresh (called_done s) (call_ends v h) (v.headers_le h) short in
      (t, e, safe)
  Event-Leads {s} v (finished fresh false h short) =
      unfold finish in request_completed_lem w bound log big fresh (called_done s) (call_ends v h)
  Event-Leads {s} v (raised message h short) =
      let (t, e, safe, waits, writes) =
        handle_exception_lem w bound log big message (called_done s) (call_ends v h)
          (v.headers_le h) short in
      (t, e, safe)
  Event-Leads {s} v (aborted h) = (_, refl, stop-Safe (call_ends v h))

  -- With a `log10` that is right below 2^31: in every state that a connection reaches, from a new one on or from one that is taken out
  -- of the pool, it waits for just one thing (a receive, with room for data, a write, or a handler),
  -- or it is closed; and it is in the pool just when it is closed, and there once. The parser keeps its invariant.
  pub Reached-Safe : {s : Connection Fn} → Reached w s → Safe s
  Reached-Safe (started fresh p q r cache) = start-Safe fresh (new_connection p q r cache) (record {
    no_reads = refl;
    no_writes = refl;
    no_calls = refl;
    opened = refl;
    not_pooled = refl;
    parser_free = reset-IsValid (record p { size = 4096 }) (omega arith);
  })
  Reached-Safe (reused fresh cache {s} r closed_eq) =
      start-Safe fresh (taken cache s) (taken-Free cache (Reached-Safe r) closed_eq)
  Reached-Safe (next r ev e) =
      let (t, g, safe) = Event-Leads (Reached-Safe r) ev in subst Safe (of_some (sym g ∙ e)) safe
