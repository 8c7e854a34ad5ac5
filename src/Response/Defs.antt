-- ===== src/Response/Defs.antt =====
-- `Response`. The buffer of the headers is memory with the length that is in use; its first 160 bytes are left
-- free for what `composeHeaders` fills in last. A status or content type is either the default, told by its
-- address, or another string.
use cppsp_ng.Base.{
  ℕ, ◌+◌, ◌-◌, Bool, true, false, ◌&&◌, Option, none, some, [], ◌++◌, ltb, if◌then◌else◌, take,
  length,
}
use cppsp_ng.Base.Bytes.{Bytes, codes}
use cppsp_ng.Base.Int.{ℤ}
use cppsp_ng.Base.Memory.{Memory}
use cppsp_ng.Base.Cursor.{Cursor, put, write}
use cppsp_ng.Decimal.Defs.{itoa64}

pub data CString : Type 0 where
  default : CString
  other : Bytes → CString

pub record Response : Type 0 where
  pub headers : Memory
  pub headers_len : ℕ
  pub buffer : Bytes
  pub status : CString
  pub content_type : CString
  pub keep_alive : Bool

abbrev pub status_bytes : CString → Bytes
status_bytes default = codes "200 OK"
status_bytes (other s) = s

abbrev pub content_type_bytes : CString → Bytes
content_type_bytes default = codes "text/html; charset=UTF-8"
content_type_bytes (other s) = s

abbrev pub is_default : CString → Bool
is_default default = true
is_default (other s) = false

abbrev pub initial_space : ℕ
initial_space = 160

unfoldable pub reset : Response → Response
reset r = record r {
  status = default;
  content_type = default;
  headers_len = initial_space;
  buffer = [];
}

unfoldable pub write_text : Bytes → Response → Response
write_text s r = record r { buffer = r.buffer ++ s }

-- `write(int)`, with the text that `snprintf` makes of the number, of which at most 11 bytes fit.
unfoldable pub write_int : (ℤ → Bytes) → ℤ → Response → Response × ℕ
write_int print i r = (record r { buffer = r.buffer ++ take 11 (print i) }, length (print i))

abbrev pub headers_end : Response → Cursor
headers_end r = record { mem = r.headers; at = r.headers_len }

abbrev pub with_headers : Cursor → Response → Response
with_headers c r = record r { headers = c.mem; headers_len = c.at }

unfoldable pub add_header : Bytes → Response → Response
add_header s r = with_headers (write s (headers_end r)) r

-- The bytes in front of the others, from `c` on.
unfoldable pub fast_head : Bool → ℕ × Bytes
fast_head true = (
  17 + 24 + 40,
  codes "HTTP/1.1 200 OK\r\nConnection: keep-alive\r\nContent-Type: text/html; charset=UTF-8\r\n",
)
fast_head false = (
  17 + 19 + 40,
  codes "HTTP/1.1 200 OK\r\nConnection: close\r\nContent-Type: text/html; charset=UTF-8\r\n",
)

unfoldable pub total_len : Response → ℕ
total_len r =
    9
    + length (status_bytes r.status)
    + 2
    + (if r.keep_alive then 24 else 19)
    + 14
    + length (content_type_bytes r.content_type)
    + 2

-- The view that is returned is where it starts and how long it is, or `none` for an empty one.
abbrev pub View : Type 0
View = Option (ℕ × ℕ)

unfoldable pub place_head : Bytes → ℕ → Response → Response
place_head text sp r = record r { headers = (write text (record { mem = r.headers; at = sp })).mem }

-- The branch for the default status and content type.
unfoldable pub compose_fast : Response → Response × View
unfolding fast_head
compose_fast r =
    let (len, text) = fast_head r.keep_alive in
    let sp = initial_space - len in (place_head (take len text) sp r, some (sp, r.headers_len - sp))

-- The writes of the other branch, one after the other.
unfoldable pub write_head : Response → Cursor → Cursor
write_head r c =
    let status = write (status_bytes r.status) (write (codes "HTTP/1.1 ") c) in
    let connection =
      if r.keep_alive
      then write (take 40 (codes "\r\nConnection: keep-alive\r\nContent-Type: ")) status
      else write (take 35 (codes "\r\nConnection: close\r\nContent-Type: ")) status in
    put 10 (put 13 (write (content_type_bytes r.content_type) connection))

unfoldable pub compose_slow : Response → Response × View
compose_slow r =
    let sp = initial_space - total_len r in
    if ltb initial_space (total_len r) then (r, none) else (
      record r { headers = (write_head r (record { mem = r.headers; at = sp })).mem },
      some (sp, r.headers_len - sp),
    )

unfoldable pub compose_branch : Response → Response × View
unfolding compose_fast compose_slow
compose_branch r =
    if is_default r.status && is_default r.content_type then compose_fast r else compose_slow r

module _ (log10 : ℕ → ℕ) where
  -- `none` means that the fuel of `itoa64` ran out.
  unfoldable pub add_content_length_header : ℕ → Response → Option Response
  add_content_length_header length r =
      elim (itoa64 log10 length (write (codes "Content-Length: ") (headers_end r))) [
        | none ↦ none
        | some c ↦ some (with_headers (put 10 (put 13 (put 10 (put 13 c)))) r)
      ]

  unfoldable pub compose_headers : ℕ → Bytes → Response → Option (Response × View)
  unfolding compose_branch
  compose_headers content_length date r =
      elim (add_content_length_header content_length (add_header date r)) [
        | none ↦ none
        | some q ↦ some (compose_branch q)
      ]
