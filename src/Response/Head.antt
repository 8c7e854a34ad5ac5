-- ===== src/Response/Head.antt =====
-- The head of a reply, as HTTP writes it.
use cppsp_ng.Base.{ℕ, ◌-◌, Bool, true, false, [], ◌∷◌, ◌++◌}
use cppsp_ng.Base.Bytes.{Bytes, codes}
use cppsp_ng.Base.Memory.{span}
use cppsp_ng.Decimal.Digits.{decimal}
use cppsp_ng.Response.Defs.{Response, status_bytes, content_type_bytes, initial_space}

abbrev pub crlf : Bytes
crlf = 13 ∷ 10 ∷ []

abbrev pub connection_text : Bool → Bytes
connection_text true = codes "keep-alive"
connection_text false = codes "close"

-- The lines that `composeHeaders` puts first.
unfoldable pub first_lines : Response → Bytes
first_lines r =
    codes "HTTP/1.1 "
    ++ (status_bytes r.status
        ++ (crlf
            ++ (codes "Connection: "
                ++ (connection_text r.keep_alive
                    ++ (crlf
                        ++ (codes "Content-Type: "
                            ++ (content_type_bytes r.content_type ++ crlf)))))))

-- The last line, and the empty line behind it.
unfoldable pub length_lines : (ℕ → ℕ) → ℕ → Bytes
length_lines log10 n = codes "Content-Length: " ++ (decimal log10 n ++ (crlf ++ crlf))

-- What has been added behind the free space.
abbrev pub added : Response → Bytes
added r = span r.headers initial_space (r.headers_len - initial_space)
