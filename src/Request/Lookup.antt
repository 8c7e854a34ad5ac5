-- ===== src/Request/Lookup.antt =====
-- The lookup of headers and query strings by name.
use mathlib.Core.List.{map}
use cppsp_ng.Base.{
  ◌≡◌, ◌≢◌, refl, ◌∙◌, sym, inl, inr, true, false, List, [], ◌∷◌, ◌++◌, Bool-cases, not,
}
use cppsp_ng.Base.Bytes.{Bytes, All, codes}
use cppsp_ng.Base.Equal.{equal, equal_sound, equal_refl}
use cppsp_ng.Http.Text.{ci_equals}
use cppsp_ng.Http.Defs.{HttpParser, header_view}
use cppsp_ng.Request.Defs.{Request, find_header, find_query, header, copy_request, ws_iswebsocket}
use cppsp_ng.Request.Case.{lower_case, ci_equals_lem, ci_compare_lem}

unequal : (s t : Bytes) → s ≢ t → equal s t ≡ false
unequal s t h = elim (Bool-cases (equal s t)) [ inl e ↦ absurd (h (equal_sound s t e)) | inr e ↦ e ]

-- The value that goes with a name, which is in lower case, in a list of headers: that of the first header whose
-- name in lower case it is, and the empty text if there is none.
pub data HasValue (name : Bytes) : List (Bytes × Bytes) → Bytes → Type 0 where
  missing : HasValue name [] []
  first :
      (n v : Bytes) (hs : List (Bytes × Bytes))
      → map lower_case n ≡ name
      → HasValue name ((n, v) ∷ hs) v
  later :
      (n w v : Bytes) (hs : List (Bytes × Bytes))
      → map lower_case n ≢ name
      → HasValue name hs v
      → HasValue name ((n, w) ∷ hs) v

-- `Request::header` gives the value that goes with the name.
pub find_header-HasValue :
    (name : Bytes) (hs : List (Bytes × Bytes)) → HasValue name hs (find_header hs name)
unfolding find_header
find_header-HasValue name [] = HasValue.missing
find_header-HasValue name ((n, v) ∷ hs) = elim (Bool-cases (ci_equals n name)) [
  | inl hit ↦ rw hit (
      HasValue.first n v hs
        (equal_sound (map lower_case n) name (sym (ci_equals_lem n name) ∙ hit)))
  | inr miss ↦ rw miss (
      HasValue.later n v (find_header hs name) hs
        (λ e. absurd (cc (ci_equals_lem n name, miss, equal_name e)))
        (find_header-HasValue name hs))
]
  where
    equal_name : map lower_case n ≡ name → equal (map lower_case n) name ≡ true
    equal_name e = rw e (equal_refl name)

-- `Request::queryString` gives the value of the first query string with the name, in the same case, and the
-- empty string if there is none.
pub find_query_lem :
    (name v : Bytes) (before after : List (Bytes × Bytes))
    → All (λ q. q.0 ≢ name) before
    → (find_query (before ++ (name, v) ∷ after) name ≡ v) × (find_query before name ≡ [])
unfolding find_query
find_query_lem name v [] after h = rw (equal_refl name) (refl, refl)
find_query_lem name v ((m, w) ∷ before) after (h, hs) =
    rw (unequal m name h) (find_query_lem name v before after hs)

-- `copyRequest` asks to close the connection exactly if the value of the first header that is named "connection" in some case is
-- "close" in some case; without such a header it asks to keep the connection open.
pub copy_request-keep_alive :
    (p : HttpParser) (r : Request)
    → (v : Bytes) × HasValue (codes "connection") (map (header_view p) p.headers) v
      × ((copy_request p r).keep_alive ≡ not (equal (map lower_case v) (codes "close")))
unfolding copy_request header
copy_request-keep_alive p r =
    let v = find_header (map (header_view p) p.headers) (codes "connection") in
    (
      v,
      find_header-HasValue (codes "connection") (map (header_view p) p.headers),
      rw (sym (ci_equals_lem v (codes "close"))) (elim (Bool-cases (ci_equals v (codes "close"))) [
        | inl e ↦ rw e refl
        | inr e ↦ rw e refl
      ]),
    )

-- A request is one for a web socket exactly if the value of its first header that is named "upgrade" in some case is "websocket"
-- in some case.
pub ws_iswebsocket_lem :
    (r : Request)
    → (v : Bytes) × HasValue (codes "upgrade") r.headers v
      × (ws_iswebsocket r ≡ equal (map lower_case v) (codes "websocket"))
unfolding ws_iswebsocket header
ws_iswebsocket_lem r =
    let v = find_header r.headers (codes "upgrade") in
    (
      v,
      find_header-HasValue (codes "upgrade") r.headers,
      unfold lower_case in ci_compare_lem v (codes "websocket"),
    )
