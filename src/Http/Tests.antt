-- ===== src/Http/Tests.antt =====
-- Runs of the request parser, and the theorems at concrete states.
use mathlib.Core.List.{map}
use cppsp_ng.Base.{
  ℕ, ◌≡◌, refl, inl, Bool, true, false, Option, none, some, [], take, drop, length, arith,
}
use cppsp_ng.Base.Int.{ℤ, pos}
use cppsp_ng.Base.Bytes.{Bytes, codes}
use cppsp_ng.Base.Memory.{Memory, fill, find_line_end, find_byte, isspace, c_string}
use cppsp_ng.Http.Defs.{
  slice, read_headers, HttpParser, begin_add_data, part, header_view, contents_view,
}
use cppsp_ng.Http.Text.{ci_equals, ci_loop, tolower}
use cppsp_ng.Http.Read.{
  find_char, trim_first, trim_last, trim, add_path, add_verb, add_request_line, note_host,
  push_header, header_at, note_content_length, add_field, add_line, add_header, read_contents,
  end_of_headers, header_round, header_loop, read_by_state, read_request,
}
use cppsp_ng.Http.Valid.{IsValid}
use cppsp_ng.Http.Preserve.{Advanced, read_request-Answers}
use cppsp_ng.Http.Later.{arrive, read_request-arrive}
use cppsp_ng.Http.Room.{HasRoom, IsSize, begin_add_data_lem, begin_add_data-views}

-- A request, with the start of the next one behind it.
abbrev request_text : Bytes
request_text = codes "PUT /a H\r\nHost: m \r\n\r\nGET"

-- The parser when `n` bytes of the request have come.
abbrev arrived : ℕ → HttpParser
arrived n = record {
  request_line = none;
  verb = none;
  host = none;
  path = none;
  contents = none;
  headers = [];
  buffer = fill (λ _. 0) 0 (take n request_text);
  size = 4096;
  begin = 0;
  end = n;
  processed = 0;
  content_length = pos 0;
  malformed = false;
  state = read_headers;
}

abbrev two : Bytes → ℤ
two s = pos 2

-- What a call leaves.
abbrev parser_of : HttpParser → Option (Bool × HttpParser) → HttpParser
parser_of p none = p
parser_of p (some (done, q)) = q

abbrev first_half : HttpParser
first_half = parser_of (arrived 12) (read_request two (arrived 12))

-- The first line has been read, and the call waits for more.
waits_on_half : read_request two (arrived 12) ≡ some (false, first_half)
unfolding read_request find_line_end fill add_header add_request_line add_verb find_char find_byte
    add_path
waits_on_half = refl

-- What is seen of a request.
abbrev seen : Option (Bool × HttpParser) → Option (Bool × Bytes × Bytes × Bytes × Bytes)
seen none = none
seen (some (done, q)) = some (done, part q q.verb, part q q.path, part q q.host, contents_view q)

whole_request :
    seen (read_request two (arrived (length request_text)))
    ≡ some (true, codes "PUT", codes "/a", codes "m", [])
unfolding read_request find_line_end fill add_header add_request_line add_verb find_char find_byte
    add_path add_field push_header note_host ci_equals slice header_at trim trim_first isspace
    c_string part add_line end_of_headers header_loop header_round note_content_length read_by_state
    read_contents trim_last ci_loop tolower contents_view
whole_request = refl

arrived-IsValid : IsValid (arrived 12)
arrived-IsValid = record {
  begin_le = omega arith;
  processed_le = omega arith;
  end_le = omega arith;
  size_pos = omega arith;
  request_line_in = tt;
  verb_in = tt;
  host_in = tt;
  path_in = tt;
  headers_in = tt;
  contents_in = tt;
}

read_request-Answers_example :
    (done : Bool) × (q : HttpParser) × (read_request two (arrived 12) ≡ some (done, q))
    × IsValid q
    × Advanced (arrived 12) q
read_request-Answers_example = read_request-Answers two (arrived 12) arrived-IsValid

-- The rest of the text, which comes later.
abbrev second_half : Bytes
second_half = drop 12 request_text

read_request-arrive_example :
    read_request two (arrive second_half first_half)
    ≡ read_request two (arrive second_half (arrived 12))
read_request-arrive_example =
    read_request-arrive two second_half (arrived 12) first_half arrived-IsValid (omega arith)
      (omega arith) waits_on_half

abbrev nothing : Memory
nothing i = 0

begin_add_data_example :
    HasRoom (arrived 12) (begin_add_data nothing (arrived 12))
    × IsSize ((begin_add_data nothing (arrived 12)).0.size)
begin_add_data_example =
    begin_add_data_lem nothing (arrived 12) arrived-IsValid (omega arith) (inl refl)

begin_add_data-views_example :
    (part (begin_add_data nothing (arrived 12)).0 (begin_add_data nothing (arrived 12)).0.verb
      ≡ part (arrived 12) (arrived 12).verb)
    × (part (begin_add_data nothing (arrived 12)).0 (begin_add_data nothing (arrived 12)).0.path
        ≡ part (arrived 12) (arrived 12).path)
    × (part (begin_add_data nothing (arrived 12)).0 (begin_add_data nothing (arrived 12)).0.host
        ≡ part (arrived 12) (arrived 12).host)
    × (map
          (header_view (begin_add_data nothing (arrived 12)).0)
          (begin_add_data nothing (arrived 12)).0.headers
        ≡ map (header_view (arrived 12)) (arrived 12).headers)
begin_add_data-views_example = begin_add_data-views nothing (arrived 12) arrived-IsValid
