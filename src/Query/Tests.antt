-- ===== src/Query/Tests.antt =====
-- Runs of the query string parser, and the theorems at concrete texts.
use mathlib.Core.List.{map}
use cppsp_ng.Base.{◌+◌, ◌≡◌, refl, some, [], ◌∷◌, ◌++◌, length, arith}
use cppsp_ng.Base.Bytes.{Bytes, codes}
use cppsp_ng.Base.Search.{Lacks, memchr}
use cppsp_ng.Split.Fields.{fields}
use cppsp_ng.Query.Defs.{query_value, append_decoded, parse_query_string, parse_path}
use cppsp_ng.Url.Defs.{url_decode}
use cppsp_ng.Url.Hex.{hex_byte}
use cppsp_ng.Query.Pairs.{
  pairs, pairs_text, entries_from, shown, parse_query_string-pairs, parse_path-pairs,
}

abbrev query : Bytes
query = codes "a=1&&b&c=%41+"

path-Lacks : Lacks b'?' (codes "/p")
path-Lacks = ground arith

parse_sample :
    parse_path (codes "/p?a=1&&b&c=%41+")
    ≡ some (record {
      path = codes "/p";
      query_strings = (codes "a", codes "1") ∷ (codes "b", []) ∷ (codes "c", codes "A ") ∷ [];
    })
unfolding parse_path memchr parse_query_string query_value append_decoded url_decode hex_byte
parse_sample = refl

parse_query_string-pairs_example :
    parse_query_string query (codes "x") []
    ≡ some (record {
      buffer = codes "x" ++ pairs_text (pairs (fields b'&' query));
      indices = [] ++ entries_from 1 (pairs (fields b'&' query));
      ret = 0 + length (pairs (fields b'&' query));
    })
parse_query_string-pairs_example = parse_query_string-pairs query (codes "x") []

parse_path-pairs_example :
    (parse_path (codes "/p") ≡ some (record { path = codes "/p"; query_strings = [] }))
    × (parse_path (codes "/p" ++ b'?' ∷ query)
        ≡ some
            (record { path = codes "/p"; query_strings = map shown (pairs (fields b'&' query)) }))
parse_path-pairs_example = parse_path-pairs (codes "/p") query path-Lacks
