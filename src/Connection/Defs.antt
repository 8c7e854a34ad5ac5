-- ===== src/Connection/Defs.antt =====
-- `ConnectionHandlerInternal`. The counters tell how many operations are under way: receives, writes and calls
-- of handlers. `pooled` counts how often the connection was given back to the pool, and `written` holds what
-- was handed to `writevAll`, the last first. `none` means that fuel ran out or that an assertion failed.
use cppsp_ng.Base.{
  ℕ, zero, suc, Bool, true, false, Option, none, some, List, [], ◌∷◌, ◌++◌, length, if◌then◌else◌,
}
use cppsp_ng.Base.Bytes.{Bytes, codes}
use cppsp_ng.Base.Int.{ℤ}
use cppsp_ng.Base.Memory.{Memory, span, fill}
use cppsp_ng.Http.Defs.{HttpParser, clear_request, reset, begin_add_data, end_add_data}
use cppsp_ng.Http.Read.{read_request}
use cppsp_ng.Query.Defs.{PathParts, parse_path}
use cppsp_ng.Request.Defs.{Request, copy_request}
use cppsp_ng.Cache.Defs.{RouteCache, make_key, find, serve}
use cppsp_ng.Markup.Defs.{html_escape}
use cppsp_ng.Response.Defs
use cppsp_ng.Response.Defs.{other, Response, View, compose_headers}

pub record Connection {ℓ} (Fn : Type ℓ) : Type ℓ where
  pub parser : HttpParser
  pub request : Request
  pub response : Response
  pub cache : RouteCache Fn
  pub handler : Option Fn
  pub reads : ℕ
  pub writes : ℕ
  pub calls : ℕ
  pub is_open : Bool
  pub pooled : ℕ
  pub written : List Bytes

-- What the connection uses: functions of libraries, and the worker with its router or its handler and its date.
pub record Worker {ℓ} (Fn : Type ℓ) : Type ℓ where
  pub atoi : Bytes → ℤ
  pub log10 : ℕ → ℕ
  pub sdbm : Bytes → ℕ
  pub router : Option (Bytes → Bytes → Fn)
  pub default_handler : Fn
  pub date : Bytes

abbrev pub too_large : Bytes
too_large = codes "Response status or content type too large"

abbrev pub error_start : Bytes
error_start =
    codes
      "<html><head><title>Server error</title></head>\n<body><h1 style=\"color: #aa1111\">Server error</h1><hr /><h2 style=\"color: #444\">"

-- The response that `defaultHandleException` fills in, with the escaped text of the exception.
abbrev pub error_page : Response → Option (ℕ × Bytes) → Option Response
error_page r none = none
error_page r (some (n, body)) = some (record r {
  buffer = body ++ codes "</h2></body></html>";
  status = other (codes "500 Server Error");
  content_type = other (codes "text/html");
})

unfoldable pub error_response : Bytes → Response → Option Response
unfolding html_escape
error_response message r = error_page r (html_escape message error_start)

-- The response that a malformed request gets.
abbrev pub bad_request : Response → Response
bad_request r = record r {
  buffer = r.buffer ++ codes "Malformed request";
  status = other (codes "400 Bad Request");
  content_type = other (codes "text/plain");
}

module _ {ℓ} {Fn : Type ℓ} where
  unfoldable pub start_read : Memory → Connection Fn → Connection Fn
  unfolding begin_add_data
  start_read fresh s = record s { parser = (begin_add_data fresh s.parser).0; reads = suc s.reads }

  unfoldable pub stop : Connection Fn → Connection Fn
  stop s = record s { is_open = false; pooled = suc s.pooled }

  unfoldable pub start_connection : Memory → Connection Fn → Connection Fn
  unfolding start_read reset
  start_connection fresh s = start_read fresh (record s { parser = reset s.parser })

  unfoldable pub write_reply : Response → ℕ → ℕ → Connection Fn → Connection Fn
  write_reply r sp len s = record s {
    response = r;
    writes = suc s.writes;
    written = (span r.headers sp len ++ r.buffer) ∷ s.written;
  }

  -- The call of `finish` in `defaultHandleException`.
  abbrev pub fail_with :
      (Connection Fn → Option (Connection Fn))
      → Connection Fn
      → Option Response
      → Option (Connection Fn)
  fail_with finish s none = none
  fail_with finish s (some r) = finish (record s { response = r })

  abbrev pub with_head :
      (Connection Fn → Option (Connection Fn))
      → Connection Fn
      → Option (Response × View)
      → Option (Connection Fn)
  with_head finish s none = none
  with_head finish s (some (r, some (sp, len))) = some (write_reply r sp len s)
  with_head finish s (some (r, none)) =
      fail_with finish (record s { response = r }) (error_response too_large r)

  module _ (w : Worker Fn) where
    -- `finish(true)`, which calls itself where the head does not fit, through `handleException`, with the
    -- function that this is by default.
    unfoldable pub reply : ℕ → Connection Fn → Option (Connection Fn)
    unfolding compose_headers write_reply error_response
    reply zero s = none
    reply (suc fuel) s =
        with_head (reply fuel) s
          (compose_headers w.log10 (length s.response.buffer) w.date s.response)

    unfoldable pub handle_exception : Bytes → Connection Fn → Option (Connection Fn)
    unfolding reply error_response
    handle_exception message s = fail_with (reply 2) s (error_response message s.response)

    -- The handler that the request gets, and the cache.
    abbrev pub or_handler : Option Fn → Fn → Fn
    or_handler none f = f
    or_handler (some cached) f = cached

    abbrev pub route :
        Option (Bytes → Bytes → Fn) → RouteCache Fn → Bytes → Bytes → Fn × RouteCache Fn
    route (some router) cache host path = serve w.sdbm router cache host path
    route none cache host path =
        (or_handler (find w.sdbm cache (make_key host path)) w.default_handler, cache)

    -- The rest of `processRequest`, with the path and the query strings.
    abbrev pub call : Request → Connection Fn → Option PathParts → Option (Connection Fn)
    call request s none = none
    call request s (some parts) =
        let q = record request { path = parts.path; query_strings = parts.query_strings } in
        let (f, cache) = route w.router s.cache q.host q.path in
        some (record s {
          request = q;
          response = record s.response { keep_alive = q.keep_alive };
          cache = cache;
          handler = some f;
          calls = suc s.calls;
        })

    unfoldable pub process_request : Connection Fn → Option (Connection Fn)
    unfolding reply parse_path copy_request Defs.reset
    process_request s =
        let r = Defs.reset s.response in
        if s.parser.malformed
        then reply 2 (record s {
          request = record s.request { keep_alive = false };
          response = bad_request r;
        })
        else (let request = copy_request s.parser s.request in
            call request (record s { response = r }) (parse_path request.path))

    -- What follows `readRequest` in `readCB` and `requestCompleted`.
    abbrev pub after_read :
        Memory → Connection Fn → Option (Bool × HttpParser) → Option (Connection Fn)
    after_read fresh s none = none
    after_read fresh s (some (true, p)) = process_request (record s { parser = p })
    after_read fresh s (some (false, p)) = some (start_read fresh (record s { parser = p }))

    unfoldable pub read_on : Memory → Connection Fn → Option (Connection Fn)
    unfolding read_request process_request start_read
    read_on fresh s = after_read fresh s (read_request w.atoi s.parser)

    -- `readCB`, with the bytes that have come, or with none for a failure or the end of the stream.
    abbrev pub added_data : Memory → Connection Fn → Option HttpParser → Option (Connection Fn)
    added_data fresh s none = none
    added_data fresh s (some p) = read_on fresh (record s { parser = p })

    unfoldable pub read_cb : Memory → Bytes → Connection Fn → Option (Connection Fn)
    unfolding read_on end_add_data stop fill
    read_cb fresh [] s = some (stop s)
    read_cb fresh (b ∷ bs) s =
        let p = record s.parser { buffer = fill s.parser.buffer s.parser.end (b ∷ bs) } in
        added_data fresh s (end_add_data (length (b ∷ bs)) p)

    unfoldable pub request_completed : Memory → Connection Fn → Option (Connection Fn)
    unfolding read_on clear_request stop
    request_completed fresh s =
        if s.request.keep_alive
        then read_on fresh (record s { parser = clear_request s.parser })
        else some (stop s)

    unfoldable pub finish : Memory → Bool → Connection Fn → Option (Connection Fn)
    unfolding reply request_completed
    finish fresh true s = reply 2 s
    finish fresh false s = request_completed fresh s

    -- The callback of `writevAll`, with whether the write succeeded.
    unfoldable pub write_done : Memory → Bool → Connection Fn → Option (Connection Fn)
    unfolding request_completed stop
    write_done fresh true s = request_completed fresh s
    write_done fresh false s = some (stop s)
