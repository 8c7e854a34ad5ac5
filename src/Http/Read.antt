-- ===== src/Http/Read.antt =====
-- `addHeader`, `trim` and `readRequest` of include/cppsp-ng/httpparser.H. `atoi` is the one of the C
-- library, on the bytes before the first NUL.
use cppsp_ng.Base.{
  ℕ, zero, suc, ◌+◌, ◌-◌, Bool, true, false, ◌||◌, Option, none, some, [], ◌∷◌, ◌++◌, ltb, leb,
  ◌==◌, if◌then◌else◌,
}
use cppsp_ng.Base.Int.{ℤ, pos, negsuc, ltb_ℤ, pos_part}
use cppsp_ng.Base.Bytes.{Bytes, codes}
use cppsp_ng.Base.Memory.{Memory, poke, find_byte, find_line_end, c_string, isspace}
use cppsp_ng.Http.Text.{ci_equals}
use cppsp_ng.Http.Defs.{
  State, read_headers, read_content, Header, HttpParser, max_request_size, slice, part,
}

-- `findChar(begin, end, ch)`: the absolute index.
unfoldable pub find_char : Memory → ℕ → ℕ → ℕ → Option ℕ
find_char mem begin end ch = if ltb end begin then none else find_byte mem ch begin (end - begin)

-- The two loops of `trim`, over the `n` bytes from `b` on: the first gives the new start and the bytes
-- left, the second the bytes left.
unfoldable pub trim_first : Memory → ℕ → ℕ → ℕ × ℕ
trim_first mem b zero = (b, 0)
trim_first mem b (suc n) = if isspace (mem b) then trim_first mem (suc b) n else (b, suc n)

unfoldable pub trim_last : Memory → ℕ → ℕ → ℕ
trim_last mem b zero = 0
trim_last mem b (suc n) = if isspace (mem (b + n)) then trim_last mem b n else suc n

unfoldable pub trim : Memory → ℕ → ℕ → ℕ × ℕ
trim mem s e = elim (ltb e s) [
  | true ↦ (s, e)
  | false ↦ (let (s', n) = trim_first mem s (e - s) in (s', s' + trim_last mem s' n))
]

-- The first line of a request, in three steps: the line, the verb before its first space, and the path
-- before its second one.
unfoldable pub add_path : HttpParser → ℕ → Option ℕ → HttpParser
add_path p index none = record p { malformed = true }
add_path p index (some index2) = record p { path = some (index + 1 - p.begin, index2 - p.begin) }

unfoldable pub add_verb : HttpParser → ℕ → ℕ → Option ℕ → HttpParser
add_verb p begin end none = record p { malformed = true }
add_verb p begin end (some index) =
    add_path (record p { verb = some (begin - p.begin, index - p.begin) }) index
      (find_char p.buffer (index + 1) end 32)

unfoldable pub add_request_line : HttpParser → ℕ → ℕ → HttpParser
add_request_line p begin end =
    add_verb (record p { request_line = some (begin - p.begin, end - p.begin) }) begin end
      (find_char p.buffer begin end 32)

-- `if(ci_equals(name, "host")) …`
unfoldable pub note_host : HttpParser → Header → HttpParser
note_host p h =
    if ci_equals (slice p.buffer h.name_start h.name_end) (codes "host")
    then record p { host = some (h.value_start - p.begin, h.value_end - p.begin) }
    else p

unfoldable pub push_header : HttpParser → Header → HttpParser
push_header p h = record p {
  headers =
      p.headers
      ++ record {
        name_start = h.name_start - p.begin;
        name_end = h.name_end - p.begin;
        value_start = h.value_start - p.begin;
        value_end = h.value_end - p.begin;
      }
        ∷ [];
}

-- The absolute indices of a header line with its colon at `index`.
unfoldable pub header_at : Memory → ℕ → ℕ → ℕ → Header
header_at mem begin end index =
    let (ns, ne) = trim mem begin index in
    let (vs, ve) = trim mem (index + 1) end in
    record { name_start = ns; name_end = ne; value_start = vs; value_end = ve }

-- `currContentLength == 0`
abbrev pub is_zero : ℤ → Bool
is_zero (pos n) = n == 0
is_zero (negsuc n) = false

abbrev pub is_none : Option (ℕ × ℕ) → Bool
is_none none = true
is_none (some _) = false

module _ (atoi : Bytes → ℤ) where
  -- `if(ci_equals(name, "content-length")) …`: the byte behind the value becomes 0, so that `atoi` stops.
  unfoldable pub note_content_length : HttpParser → Header → HttpParser
  note_content_length p h =
      let buffer = poke p.buffer h.value_end 0 in
      if ci_equals (slice p.buffer h.name_start h.name_end) (codes "content-length")
      then record p {
        buffer = buffer;
        content_length = atoi (c_string buffer h.value_start (h.value_end - h.value_start));
      }
      else p

  unfoldable pub add_field : HttpParser → ℕ → ℕ → Option ℕ → HttpParser
  add_field p begin end none = record p { malformed = true }
  add_field p begin end (some index) =
      let h = header_at p.buffer begin end index in
      push_header (note_host (note_content_length p h) h) h

  -- A line, given `requestLineStart`: the first one is the request line, the others are headers.
  unfoldable pub add_line : HttpParser → ℕ → ℕ → Option (ℕ × ℕ) → HttpParser
  add_line p begin end none = add_request_line p begin end
  add_line p begin end (some _) = add_field p begin end (find_char p.buffer begin end b':')

  unfoldable pub add_header : HttpParser → ℕ → ℕ → HttpParser
  unfolding add_line
  add_header p begin end = add_line p begin end p.request_line

  -- From the label `readContent` on. Behind the first test the content length is not negative.
  unfoldable pub read_contents : HttpParser → Bool × HttpParser
  read_contents p =
      let n = pos_part p.content_length in
      if ltb_ℤ p.content_length (pos 0) || ltb_ℤ (pos max_request_size) p.content_length
      then (true, record p { malformed = true })
      else if leb n (p.end - p.processed)
      then (
        true,
        record p {
          contents = some (p.processed, p.processed + n);
          processed = p.processed + n;
          state = read_headers;
        },
      )
      else (false, p)

  -- The branch for a line end where a line would begin: the headers are complete.
  unfoldable pub end_of_headers : HttpParser → Bool × HttpParser
  unfolding read_contents
  end_of_headers p =
      if is_none p.request_line
      then (true, record p { malformed = true })
      else if ci_equals (part p p.verb) (codes "get") || is_zero p.content_length
      then (true, p)
      else read_contents (record p { state = read_content })

  -- A round of `while(bufferProcessed < bufferEnd)` with the index of the next line end.
  unfoldable pub header_round :
      (HttpParser → Option (Bool × HttpParser)) → HttpParser → Option ℕ → Option (Bool × HttpParser)
  header_round again p none = some (false, p)
  header_round again p (some index) =
      if p.processed == index
      then some (end_of_headers (record p { processed = index + 2 }))
      else again (record (add_header p p.processed index) { processed = index + 2 })

  -- That loop, with fuel; `none` means that the fuel ran out.
  unfoldable pub header_loop : ℕ → HttpParser → Option (Bool × HttpParser)
  unfolding header_round
  header_loop zero p = none
  header_loop (suc fuel) p =
      let round =
        header_round (header_loop fuel) p
          (find_line_end p.buffer p.processed (p.end - p.processed)) in
      if ltb p.processed p.end then round else some (false, p)

  -- `readRequest`, which returns true for a complete or a malformed request: the part behind the test of
  -- the size, and the whole.
  unfoldable pub read_by_state : HttpParser → State → Option (Bool × HttpParser)
  unfolding header_loop
  read_by_state p read_headers = header_loop (suc (p.end - p.processed)) p
  read_by_state p read_content = some (read_contents p)

  unfoldable pub read_request : HttpParser → Option (Bool × HttpParser)
  unfolding read_by_state
  read_request p =
      if leb max_request_size (p.end - p.begin)
      then some (true, record p { malformed = true })
      else read_by_state p p.state
