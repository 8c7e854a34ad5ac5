-- ===== src/Connection/Tests.antt =====
-- A connection at concrete states.
use cppsp_ng.Base.{
  ℕ, ◌≤◌, ◌<◌, ◌≡◌, ◌⊎◌, refl, true, false, ltb, length, none, some, [], ◌∷◌, if◌then◌else◌, arith,
}
use cppsp_ng.Base.Bytes.{codes}
use cppsp_ng.Base.Int.{pos}
use cppsp_ng.Decimal.Digits.{IsLog}
use cppsp_ng.Http.Defs.{HttpParser, read_headers}
use cppsp_ng.Http.Valid.{IsValid}
use cppsp_ng.Cache.Defs.{new_cache}
use cppsp_ng.Response.Defs.{Response, default, other, initial_space}
use cppsp_ng.Response.Head.{first_lines}
use cppsp_ng.Connection.Defs.{Connection, Worker, start_connection, finish, handle_exception}
use cppsp_ng.Connection.Safe.{Free, Safe, WaitsForWrite}
use cppsp_ng.Connection.Reply.{
  Writes, WritesTooLarge, error_reply, finish_lem, handle_exception_lem,
}
use cppsp_ng.Connection.Answer.{Leads}
use cppsp_ng.Connection.Scratch
use cppsp_ng.Connection.Scratch.{
  ScratchArea, Scratched, scratch_area, scratch_area_lem, ObjectPool, Reached-Apart, Apart, get,
  put_object,
}
use cppsp_ng.Connection.Steps.{
  Event, new_connection, Reached, called_done, Event-Leads, Reached-Safe,
}

-- The logarithm for numbers below 10^10.
abbrev int_log : ℕ → ℕ
int_log i =
    if ltb i 10
    then 0
    else if ltb i 100
    then 1
    else if ltb i 1000
    then 2
    else if ltb i 10000
    then 3
    else if ltb i 100000
    then 4
    else if ltb i 1000000
    then 5
    else if ltb i 10000000
    then 6
    else if ltb i 100000000
    then 7
    else if ltb i 1000000000
    then 8
    else 9

int_log-IsLog : IsLog int_log 10000000000
int_log-IsLog = record { lower = λ i pos lt. ground arith; upper = λ i pos lt. ground arith }

abbrev worker : Worker ℕ
worker = record {
  atoi = λ s. pos 0;
  log10 = int_log;
  sdbm = λ s. length s;
  router = none;
  default_handler = 7;
  date = codes "Date: Thu, 01 Jan 1970 00:00:00 GMT\r\n";
}

abbrev parser : HttpParser
parser = record {
  request_line = none;
  verb = none;
  host = none;
  path = none;
  contents = none;
  headers = [];
  buffer = λ i. 0;
  size = 4096;
  begin = 0;
  end = 0;
  processed = 0;
  content_length = pos 0;
  malformed = false;
  state = read_headers;
}

parser-IsValid : IsValid parser
parser-IsValid = record {
  begin_le = omega arith;
  processed_le = omega arith;
  end_le = omega arith;
  size_pos = omega arith;
  request_line_in = tt;
  verb_in = tt;
  host_in = tt;
  path_in = tt;
  headers_in = tt;
  contents_in = tt;
}

abbrev page : Response
page = record {
  headers = λ i. 0;
  headers_len = 160;
  buffer = codes "hello";
  status = default;
  content_type = other (codes "text/plain");
  keep_alive = true;
}

abbrev idle : Connection ℕ
idle = record {
  parser = parser;
  request = record {
    method = [];
    host = [];
    path = [];
    headers = [];
    query_strings = [];
    keep_alive = true;
  };
  response = page;
  cache = new_cache 4 (λ h i. []) 0;
  handler = none;
  reads = 0;
  writes = 0;
  calls = 0;
  is_open = true;
  pooled = 0;
  written = [];
}

idle-Free : Free idle
idle-Free = record {
  no_reads = refl;
  no_writes = refl;
  no_calls = refl;
  opened = refl;
  not_pooled = refl;
  parser_free = parser-IsValid;
}

abbrev started : Connection ℕ
started =
    start_connection (λ i. 0) (new_connection parser idle.request page (new_cache 4 (λ h i. []) 0))

started-Reached : Reached worker started
started-Reached = Reached.started (λ i. 0) parser idle.request page (new_cache 4 (λ h i. []) 0)

Reached-Safe_example : Safe started
Reached-Safe_example = Reached-Safe worker 10000000000 int_log-IsLog (omega arith) started-Reached

-- A handler is running.
abbrev running : Connection ℕ
running = record idle { calls = 1 }

running-Safe : Safe running
running-Safe = record {
  one = refl;
  pooled_eq = refl;
  parser_valid = parser-IsValid;
  room = λ h. absurd (omega arith);
  headers_le = λ h. omega arith;
}

Event-Leads_example : Leads (finish worker (λ i. 0) true (called_done running))
Event-Leads_example =
    Event-Leads worker 10000000000 int_log-IsLog (omega arith) running-Safe
      (Event.finished (λ i. 0) true (omega arith) (omega arith))

finish_lem_example :
    (t : Connection ℕ) × (finish worker (λ i. 0) true idle ≡ some t)
    × Safe t
    × WaitsForWrite t
    × (t.request ≡ idle.request)
    × ((length (first_lines page) ≤ initial_space) × Writes worker idle t
        ⊎ (initial_space < length (first_lines page)) × WritesTooLarge worker idle t)
finish_lem_example =
    finish_lem worker 10000000000 int_log-IsLog (omega arith) (λ i. 0) idle idle-Free (omega arith)
      (omega arith)

handle_exception_lem_example :
    (t : Connection ℕ) × (handle_exception worker (codes "<boom>") idle ≡ some t)
    × Safe t
    × WaitsForWrite t
    × Writes worker (record idle { response = error_reply (codes "<boom>") page }) t
handle_exception_lem_example =
    handle_exception_lem worker 10000000000 int_log-IsLog (omega arith) (codes "<boom>") idle
      idle-Free (omega arith) (omega arith)

scratch_area_lem_example :
    (out : ScratchArea) × (scratch_area true 1000 0 ≡ some out) × Scratched true 1000 0 out
scratch_area_lem_example = scratch_area_lem true 1000 0 (omega arith) (omega arith)

-- Two connections; the first of them is closed, and serves again.
pool_run : Scratch.Reached (0 ∷ 1 ∷ [], record { pool = []; fresh = 2 })
unfolding get put_object
pool_run =
    Scratch.Reached.next
      (Scratch.Reached.next
        (Scratch.Reached.next
          (Scratch.Reached.next Scratch.Reached.new
            (Scratch.Step.got [] (record { pool = []; fresh = 0 })))
          (Scratch.Step.got (0 ∷ []) (record { pool = []; fresh = 1 })))
        (Scratch.Step.gave (1 ∷ []) 0 [] (record { pool = []; fresh = 2 })))
      (Scratch.Step.got (1 ∷ []) (record { pool = 0 ∷ []; fresh = 2 }))

Reached-Apart_example : Apart (0 ∷ 1 ∷ []) (record { pool = []; fresh = 2 })
Reached-Apart_example = Reached-Apart (0 ∷ 1 ∷ []) (record { pool = []; fresh = 2 }) pool_run
