-- ===== src/Request/Tests.antt =====
-- The theorems on requests at concrete requests.
use mathlib.Core.List.{map}
use cppsp_ng.Base.{◌≡◌, true, false, none, [], ◌∷◌, not}
use cppsp_ng.Base.Bytes.{Bytes, codes}
use cppsp_ng.Base.Int.{pos}
use cppsp_ng.Base.Memory.{fill}
use cppsp_ng.Base.Equal.{equal}
use cppsp_ng.Http.Text.{ci_compare}
use cppsp_ng.Http.Defs.{HttpParser, read_headers, header_view}
use cppsp_ng.Request.Defs.{Request, copy_request, is_equal, ws_iswebsocket}
use cppsp_ng.Request.Case.{lower_case, ci_compare_lem}
use cppsp_ng.Request.Lookup.{HasValue, copy_request-keep_alive, ws_iswebsocket_lem}

ci_compare_example :
    is_equal (ci_compare (codes "WebSocket") (codes "websocket"))
    ≡ equal (map lower_case (codes "WebSocket")) (map lower_case (codes "websocket"))
ci_compare_example = ci_compare_lem (codes "WebSocket") (codes "websocket")

abbrev request : Request
request = record {
  method = codes "GET";
  host = codes "me";
  path = codes "/";
  headers = (codes "Upgrade", codes "WebSocket") ∷ [];
  query_strings = [];
  keep_alive = true;
}

abbrev parsed : HttpParser
parsed = record {
  request_line = none;
  verb = none;
  host = none;
  path = none;
  contents = none;
  headers = record { name_start = 0; name_end = 10; value_start = 12; value_end = 17 } ∷ [];
  buffer = fill (λ _. 0) 0 (codes "Connection: Close");
  size = 4096;
  begin = 0;
  end = 17;
  processed = 17;
  content_length = pos 0;
  malformed = false;
  state = read_headers;
}

copy_request-keep_alive_example :
    (v : Bytes) × HasValue (codes "connection") (map (header_view parsed) parsed.headers) v
    × ((copy_request parsed request).keep_alive ≡ not (equal (map lower_case v) (codes "close")))
copy_request-keep_alive_example = copy_request-keep_alive parsed request

ws_iswebsocket_example :
    (v : Bytes) × HasValue (codes "upgrade") request.headers v
    × (ws_iswebsocket request ≡ equal (map lower_case v) (codes "websocket"))
ws_iswebsocket_example = ws_iswebsocket_lem request
