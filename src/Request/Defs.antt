-- ===== src/Request/Defs.antt =====
-- `Request`, `copyRequest` and `ws_iswebsocket`.
use mathlib.Core.List.{map}
use cppsp_ng.Base.{Bool, true, false, List, [], ◌∷◌, ◌==◌, if◌then◌else◌}
use cppsp_ng.Base.Bytes.{Bytes, codes}
use cppsp_ng.Base.Int.{ℤ, pos, negsuc}
use cppsp_ng.Base.Equal.{equal}
use cppsp_ng.Http.Text.{ci_equals, ci_compare}
use cppsp_ng.Http.Defs.{HttpParser, part, header_view}

pub record Request : Type 0 where
  pub method : Bytes
  pub host : Bytes
  pub path : Bytes
  pub headers : List (Bytes × Bytes)
  pub query_strings : List (Bytes × Bytes)
  pub keep_alive : Bool

-- The loops of `Request::header(name)` and `Request::queryString(name)`: the value that goes with the name, or
-- an empty string.
unfoldable pub find_header : List (Bytes × Bytes) → Bytes → Bytes
find_header [] name = []
find_header ((n, v) ∷ hs) name = if ci_equals n name then v else find_header hs name

unfoldable pub find_query : List (Bytes × Bytes) → Bytes → Bytes
find_query [] name = []
find_query ((n, v) ∷ qs) name = if equal n name then v else find_query qs name

unfoldable pub header : Request → Bytes → Bytes
unfolding find_header
header r name = find_header r.headers name

unfoldable pub query_string : Request → Bytes → Bytes
unfolding find_query
query_string r name = find_query r.query_strings name

unfoldable pub copy_request : HttpParser → Request → Request
unfolding header
copy_request p r =
    let copied = record r {
      keep_alive = true;
      host = part p p.host;
      path = part p p.path;
      method = part p p.verb;
      headers = map (header_view p) p.headers;
    } in
    if ci_equals (header copied (codes "connection")) (codes "close")
    then record copied { keep_alive = false }
    else copied

-- `== 0` on the result of `ci_compare`.
unfoldable pub is_equal : ℤ → Bool
is_equal (pos n) = n == 0
is_equal (negsuc n) = false

unfoldable pub ws_iswebsocket : Request → Bool
unfolding header is_equal
ws_iswebsocket r = is_equal (ci_compare (header r (codes "upgrade")) (codes "websocket"))
