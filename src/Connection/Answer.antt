-- ===== src/Connection/Answer.antt =====
-- Every callback of a connection ends and leads on, and all states that a connection reaches are safe.
use cppsp_ng.Base.{
  ℕ, suc, ◌+◌, ◌^◌, ◌≤◌, ◌<◌, ◌≡◌, refl, sym, ap, ◌∙◌, Bool, true, false, inl, inr, Option, none,
  some, [], ◌∷◌, length, leb, drop, take, if◌then◌else◌, arith,
}
use cppsp_ng.Base.Bytes.{Bytes}
use cppsp_ng.Base.Memory.{Memory, fill}
use cppsp_ng.Base.Search.{memchr-cases}
use cppsp_ng.Decimal.Digits.{IsLog}
use cppsp_ng.Http.Defs.{HttpParser, clear_request, reset, end_add_data}
use cppsp_ng.Http.Valid.{
  IsValid, clear_request-IsValid, begin_add_data-IsValid, end_add_data-IsValid,
}
use cppsp_ng.Http.Room.{begin_add_data-HasRoom}
use cppsp_ng.Http.Preserve.{read_request-Answers}
use cppsp_ng.Query.Defs.{PathParts, parse_path}
use cppsp_ng.Query.Pairs.{parse_path-pairs}
use cppsp_ng.Request.Defs.{Request, copy_request}
use cppsp_ng.Response.Defs
use cppsp_ng.Response.Defs.{Response, initial_space}
use cppsp_ng.Connection.Defs.{
  Connection, Worker, start_read, start_connection, stop, bad_request, call, process_request, reply,
  after_read, finish, read_on, added_data, read_cb, request_completed, write_done,
}
use cppsp_ng.Connection.Safe.{Free, Safe, closed}
use cppsp_ng.Connection.Reply.{Free-response, finish_lem}

-- The query string of every path is parsed.
parse_path-some : (path : Bytes) → (parts : PathParts) × (parse_path path ≡ some parts)
parse_path-some path = elim (memchr-cases b'?' path) [
  | inl (e, lacks) ↦ (_, (parse_path-pairs path [] lacks).0)
  | inr (i, e, at) ↦
      (_, ap parse_path at.around ∙ (parse_path-pairs (take i path) (drop (suc i) path) at.first).1)
]

filled-IsValid : (mem : Memory) {p : HttpParser} → IsValid p → IsValid (record p { buffer = mem })
filled-IsValid mem v = record {
  begin_le = v.begin_le;
  processed_le = v.processed_le;
  end_le = v.end_le;
  size_pos = v.size_pos;
  request_line_in = v.request_line_in;
  verb_in = v.verb_in;
  host_in = v.host_in;
  path_in = v.path_in;
  headers_in = v.headers_in;
  contents_in = v.contents_in;
}

end_add_data-some :
    (n : ℕ) (p : HttpParser) → p.end + n ≤ p.size → (q : HttpParser) × (end_add_data n p ≡ some q)
unfolding end_add_data
end_add_data-some n p h =
    let q = record p { end = p.end + n } in
    let le : leb (p.end + n) p.size ≡ true = ground arith in
    (q, ap (λ (b : Bool). if b then some q else none) le)

module _ {ℓ} {Fn : Type ℓ} where
  -- A result in a safe state.
  abbrev pub Leads : Option (Connection Fn) → Type ℓ
  Leads o = (t : Connection Fn) × (o ≡ some t) × Safe t

  if_Leads :
      (b : Bool) (x y : Option (Connection Fn)) → Leads x → Leads y → Leads (if b then x else y)
  if_Leads true x y p q = p
  if_Leads false x y p q = q

  pub stop-Safe : {s : Connection Fn} → Free s → Safe (stop s)
  unfolding stop
  stop-Safe f = record {
    one = omega (arith, f.no_reads, f.no_writes, f.no_calls);
    pooled_eq = ap suc f.not_pooled;
    parser_valid = f.parser_free;
    room = λ h. absurd (omega (arith, f.no_reads));
    headers_le = λ h. absurd (omega (arith, f.no_calls));
  }

  start_read-Safe : (fresh : Memory) {s : Connection Fn} → Free s → Safe (start_read fresh s)
  unfolding start_read
  start_read-Safe fresh {s} f =
      let (start_eq, end_eq, pos, same) = begin_add_data-HasRoom fresh f.parser_free in
      record {
        one =
            ap (λ (b : Bool). suc s.reads + s.writes + s.calls + closed b) f.opened
            ∙ omega (arith, f.no_reads, f.no_writes, f.no_calls);
        pooled_eq = f.not_pooled ∙ ap closed (sym f.opened);
        parser_valid = begin_add_data-IsValid f.parser_free fresh;
        room = λ h. omega (arith, start_eq, end_eq, pos);
        headers_le = λ h. absurd (omega (arith, f.no_calls));
      }

  Free-parser :
      {s : Connection Fn} (p : HttpParser) → Free s → IsValid p → Free (record s { parser = p })
  Free-parser p f v = record {
    no_reads = f.no_reads;
    no_writes = f.no_writes;
    no_calls = f.no_calls;
    opened = f.opened;
    not_pooled = f.not_pooled;
    parser_free = v;
  }

  Free-request : {s : Connection Fn} (q : Request) → Free s → Free (record s { request = q })
  Free-request q f = record {
    no_reads = f.no_reads;
    no_writes = f.no_writes;
    no_calls = f.no_calls;
    opened = f.opened;
    not_pooled = f.not_pooled;
    parser_free = f.parser_free;
  }

  -- A connection is safe once `start` has reset its parser.
  pub start-Safe :
      (fresh : Memory) (s : Connection Fn)
      → Free (record s { parser = reset s.parser })
      → Safe (start_connection fresh s)
  unfolding start_connection
  start-Safe fresh s f = start_read-Safe fresh f

  module _ (w : Worker Fn) (bound : ℕ) (log : IsLog w.log10 bound) (big : 2 ^ 31 ≤ bound) where
    call-Safe :
        (request : Request) (s : Connection Fn) (parts : Option PathParts)
        → Free s
        → initial_space ≤ s.response.headers_len
        → ((p : PathParts) × (parts ≡ some p))
        → Leads (call w request s parts)
    call-Safe request s parts f space (p, e) = (
      _,
      ap (call w request s) e,
      record {
        one =
            ap (λ (b : Bool). s.reads + s.writes + suc s.calls + closed b) f.opened
            ∙ omega (arith, f.no_reads, f.no_writes, f.no_calls);
        pooled_eq = f.not_pooled ∙ ap closed (sym f.opened);
        parser_valid = f.parser_free;
        room = λ h. absurd (omega (arith, f.no_reads));
        headers_le = λ h. space;
      },
    )

    refused_Leads :
        (s : Connection Fn)
        → Free s
        → initial_space ≤ s.response.headers_len
        → length s.response.buffer < 2 ^ 31
        → Leads (reply w 2 s)
    refused_Leads s f space short =
        unfold finish in
        (let (t, e, safe, waits, req, out) =
            finish_lem w bound log big s.parser.buffer s f space short in
          (t, e, safe))

    process_request_lem : (s : Connection Fn) → Free s → Leads (process_request w s)
    unfolding process_request Defs.reset
    process_request_lem s f =
        let r = bad_request (Defs.reset s.response) in
        let q = copy_request s.parser s.request in
        let refused = record s.request { keep_alive = false } in
        let u = record s { response = Defs.reset s.response } in
        if_Leads s.parser.malformed _ _
          (refused_Leads (record s { request = refused; response = r })
            (Free-response r (Free-request refused f)) (omega arith) (omega arith))
          (call-Safe q u (parse_path q.path) (Free-response (Defs.reset s.response) f) (omega arith)
            (parse_path-some q.path))

    read_on_lem : (fresh : Memory) (s : Connection Fn) → Free s → Leads (read_on w fresh s)
    unfolding read_on
    read_on_lem fresh s f =
        let (done, p, e, v, moved) = read_request-Answers w.atoi s.parser f.parser_free in
        let (t, g, safe) = go done p v in (t, ap (after_read w fresh s) e ∙ g, safe)
      where
        go :
            (done : Bool) (p : HttpParser)
            → IsValid p
            → (t : Connection Fn) × (after_read w fresh s (some (done, p)) ≡ some t) × Safe t
        go true p v = process_request_lem (record s { parser = p }) (Free-parser p f v)
        go false p v = (_, refl, start_read-Safe fresh (Free-parser p f v))

    -- `readCB` in a callback, with no more bytes than `recv` was offered room for: it fails no assertion, and the connection
    -- waits for one thing or is closed.
    pub read_cb_lem :
        (fresh : Memory) (bytes : Bytes) (s : Connection Fn)
        → Free s
        → s.parser.end + length bytes ≤ s.parser.size
        → Leads (read_cb w fresh bytes s)
    unfolding read_cb
    read_cb_lem fresh [] s f room = (stop s, refl, stop-Safe f)
    read_cb_lem fresh (b ∷ bs) s f room =
        let p = record s.parser { buffer = fill s.parser.buffer s.parser.end (b ∷ bs) } in
        let (q, e) = end_add_data-some (length (b ∷ bs)) p room in
        let v =
          end_add_data-IsValid
            (filled-IsValid (fill s.parser.buffer s.parser.end (b ∷ bs)) f.parser_free)
            (length (b ∷ bs)) e in
        let (t, g, safe) = read_on_lem fresh (record s { parser = q }) (Free-parser q f v) in
        (t, ap (added_data w fresh s) e ∙ g, safe)

    pub request_completed_lem :
        (fresh : Memory) (s : Connection Fn) → Free s → Leads (request_completed w fresh s)
    unfolding request_completed
    request_completed_lem fresh s f =
        if_Leads s.request.keep_alive _ _
          (read_on_lem fresh (record s { parser = clear_request s.parser })
            (Free-parser (clear_request s.parser) f (clear_request-IsValid f.parser_free)))
          (stop s, refl, stop-Safe f)

    pub write_done_lem :
        (fresh : Memory) (ok : Bool) (s : Connection Fn) → Free s → Leads (write_done w fresh ok s)
    unfolding write_done
    write_done_lem fresh true s f = request_completed_lem fresh s f
    write_done_lem fresh false s f = (stop s, refl, stop-Safe f)
