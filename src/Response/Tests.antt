-- ===== src/Response/Tests.antt =====
-- `composeHeaders` at a concrete reply, of which the status is not the default.
use cppsp_ng.Base.{◌≡◌, refl, false, ltb, length, some, arith}
use cppsp_ng.Base.Bytes.{Bytes, codes}
use cppsp_ng.Decimal.Tests.{small_log, small_log-IsLog}
use cppsp_ng.Response.Defs.{other, Response, View, initial_space, compose_headers, total_len}
use cppsp_ng.Response.Head.{first_lines}
use cppsp_ng.Response.Compose.{Replies, SameBody, compose_headers_lem}

abbrev missing : Response
missing = record {
  headers = λ _. 0;
  headers_len = 160;
  buffer = codes "nothing here";
  status = other (codes "404 Not Found");
  content_type = other (codes "text/plain");
  keep_alive = false;
}

missing_len : total_len missing ≡ 69
unfolding total_len
missing_len = refl

abbrev date_line : Bytes
date_line = codes "Date: Thu, 01 Jan 1970 00:00:00 GMT\r\n"

compose_headers_lem_example :
    (out : Response × View) × (compose_headers small_log 12 date_line missing ≡ some out)
    × Replies small_log missing 12 date_line (ltb initial_space (length (first_lines missing))) out
    × SameBody missing out.0
compose_headers_lem_example =
    compose_headers_lem small_log 100000 small_log-IsLog missing 12 date_line (omega arith)
      (omega arith)
