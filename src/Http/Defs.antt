-- ===== src/Http/Defs.antt =====
-- The state of `HTTPParser` (include/cppsp-ng/httpparser.H) and its operations on the buffer. An index
-- that is -1 until it is known is `none`. All other indices lie between 0 and the size of the buffer,
-- which stays small, so they are natural numbers that do not wrap.
use cppsp_ng.Base.{
  ℕ, ◌+◌, ◌-◌, ◌*◌, Bool, false, Option, none, some, List, [], ltb, leb, if◌then◌else◌,
}
use cppsp_ng.Base.Int.{ℤ, pos}
use cppsp_ng.Base.Bytes.{Bytes}
use cppsp_ng.Base.Memory.{Memory, span, copy_to_start}

pub data State : Type 0 where
  read_headers read_content : State

-- Where the name and the value of a header begin and end, from `bufferBegin` on.
pub record Header : Type 0 where
  pub name_start : ℕ
  pub name_end : ℕ
  pub value_start : ℕ
  pub value_end : ℕ

-- A start and an end that are both -1 until they are set.
abbrev pub Range : Type 0
Range = Option (ℕ × ℕ)

pub record HttpParser : Type 0 where
  pub request_line : Range
  pub verb : Range
  pub host : Range
  pub path : Range
  pub contents : Range
  pub headers : List Header
  pub buffer : Memory
  pub size : ℕ
  pub begin : ℕ
  pub end : ℕ
  pub processed : ℕ
  pub content_length : ℤ
  pub malformed : Bool
  pub state : State

abbrev pub max_request_size : ℕ
max_request_size = 8192

unfoldable pub clear_request : HttpParser → HttpParser
clear_request p = record p {
  content_length = pos 0;
  request_line = none;
  verb = none;
  host = none;
  path = none;
  contents = none;
  begin = p.processed;
  headers = [];
  malformed = false;
}

unfoldable pub reset : HttpParser → HttpParser
unfolding clear_request
reset p = clear_request (record p { begin = 0; end = 0; processed = 0; state = read_headers })

-- `beginAddData`: the parser, and the free space as its start and its length. `fresh` is what the memory
-- holds that `new` returns.
unfoldable pub begin_add_data : Memory → HttpParser → HttpParser × ℕ × ℕ
begin_add_data fresh p =
    let cur = p.end - p.begin in
    let moved = copy_to_start p.buffer p.buffer p.begin cur in
    if leb p.end p.begin
    then (record p { end = 0; begin = 0; processed = 0 }, 0, p.size)
    else if ltb p.size (cur * 2)
    then (
      record p {
        buffer = copy_to_start fresh p.buffer p.begin cur;
        size = p.size * 2;
        processed = p.processed - p.begin;
        begin = 0;
        end = cur;
      },
      cur,
      p.size * 2 - cur,
    )
    else (
      record p {
        buffer = if ltb 0 p.begin then moved else p.buffer;
        processed = p.processed - p.begin;
        begin = 0;
        end = cur;
      },
      cur,
      p.size - cur,
    )

-- `endAddData`; `none` is the assertion that fails.
unfoldable pub end_add_data : ℕ → HttpParser → Option HttpParser
end_add_data len p =
    if leb (p.end + len) p.size then some (record p { end = p.end + len }) else none

-- `slice`, from absolute indices.
unfoldable pub slice : Memory → ℕ → ℕ → Bytes
slice mem begin end = if leb end begin then [] else span mem begin (end - begin)

-- The view of a part of the request; a part that is not set is empty.
unfoldable pub part : HttpParser → Range → Bytes
unfolding slice
part p none = []
part p (some (s, e)) = slice p.buffer (p.begin + s) (p.begin + e)

-- `contents()`, whose indices are absolute.
unfoldable pub contents_view : HttpParser → Bytes
unfolding slice
contents_view p = elim p.contents [ none ↦ [] | some (s, e) ↦ slice p.buffer s e ]

unfoldable pub remaining_data : HttpParser → Bytes
unfolding slice
remaining_data p = slice p.buffer p.processed p.end

-- `header(item)`: the name and the value.
unfoldable pub header_view : HttpParser → Header → Bytes × Bytes
unfolding part
header_view p h =
    (part p (some (h.name_start, h.name_end)), part p (some (h.value_start, h.value_end)))
