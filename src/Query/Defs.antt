-- ===== src/Query/Defs.antt =====
-- `parseQueryStringImpl` of stringutils.C: the decoded names and values go to one output buffer, and the
-- places where they stand there to a list of indices.
use mathlib.Core.List.{map}
use cppsp_ng.Base.{
  ℕ, zero, suc, ◌+◌, ◌-◌, ◌≡◌, refl, Option, none, some, List, [], ◌∷◌, ◌++◌, if◌then◌else◌, take,
  drop, length,
}
use cppsp_ng.Base.Bytes.{Bytes, codes}
use cppsp_ng.Base.Search.{memchr}
use cppsp_ng.Url.Hex.{hex_byte}
use cppsp_ng.Url.Defs.{url_decode}
use cppsp_ng.Split.Defs.{Split, split, read}

-- A `tuple<int,int,int,int>`: where the name begins and ends, and where the value does; `none` stands
-- for the two -1 of a field without "=".
pub record Entry : Type 0 where
  pub name_start : ℕ
  pub name_end : ℕ
  pub value : Option (ℕ × ℕ)

pub record Query : Type 0 where
  pub buffer : Bytes
  pub indices : List Entry
  pub ret : ℕ

infixl 5 ◌>>=◌
abbrev pub ◌>>=◌ {ℓ κ} : {A : Type ℓ} {B : Type κ} → Option A → (A → Option B) → Option B
none >>= f = none
some a >>= f = f a

-- `urlDecode(start, len, outBuffer)`, of which only the new buffer is used.
unfoldable pub append_decoded : Bytes → Bytes → Option Bytes
append_decoded s out = do (_, out') ← url_decode s out; some out'

-- The body of the loop for a value that is not empty, with the index of the first "=".
unfoldable pub query_field : Query → Bytes → Option ℕ → Option Query
query_field q v none = do
  out ← append_decoded v q.buffer
  some (record {
    buffer = out;
    indices =
        q.indices
        ++ record { name_start = length q.buffer; name_end = length out; value = none } ∷ [];
    ret = q.ret + 1;
  })
query_field q v (some i) = do
  out ← append_decoded (take i v) q.buffer
  out' ← append_decoded (drop (suc i) v) out
  some (record {
    buffer = out';
    indices =
        q.indices
        ++ record {
          name_start = length q.buffer;
          name_end = length out;
          value = some (length out, length out');
        }
          ∷ [];
    ret = q.ret + 1;
  })

-- The body of the loop; the first clause is its `continue`.
unfoldable pub query_value : Query → Bytes → Option Query
unfolding query_field
query_value q [] = some q
query_value q (c ∷ v) = query_field q (c ∷ v) (memchr b'=' (c ∷ v))

-- `while (spl.read())`, with fuel; `none` means that the fuel ran out.
unfoldable pub query_loop : ℕ → Split → Query → Option Query
unfolding read
query_loop zero sp q = none
query_loop (suc fuel) sp q =
    let (more, sp') = read sp in
    let later = (do q' ← query_value q sp'.value; query_loop fuel sp' q') in
    if more then later else some q

unfoldable pub parse_query_string : Bytes → Bytes → List Entry → Option Query
unfolding query_loop
parse_query_string s out indices =
    query_loop (length s + 2) (split s b'&') (record { buffer = out; indices = indices; ret = 0 })

-- `string_view(spStart + begin, end - begin)`, as the bytes that it shows.
abbrev pub view : Bytes → ℕ → ℕ → Bytes
view buffer begin end = take (end - begin) (drop begin buffer)

-- What `ConnectionHandlerInternal::parseQueryString` makes of an entry; between -1 and -1 there is
-- nothing to show.
abbrev pub show_value : Bytes → Option (ℕ × ℕ) → Bytes
show_value buffer none = []
show_value buffer (some (begin, end)) = view buffer begin end

unfoldable pub show_entry : Bytes → Entry → Bytes × Bytes
show_entry buffer e = (view buffer e.name_start e.name_end, show_value buffer e.value)

-- The method: the path without its query string, the query strings, and the string pool that holds
-- them, from the path and an empty pool.
pub record PathParts : Type 0 where
  pub path : Bytes
  pub query_strings : List (Bytes × Bytes)

unfoldable pub path_parts : Bytes → Option ℕ → Option PathParts
unfolding show_entry
path_parts path none = some (record { path = path; query_strings = [] })
path_parts path (some que) = do
  q ← parse_query_string (drop (que + 1) path) [] []
  some (record { path = take que path; query_strings = map (show_entry q.buffer) q.indices })

unfoldable pub parse_path : Bytes → Option PathParts
unfolding path_parts
parse_path path = path_parts path (memchr b'?' path)

two_fields :
    parse_query_string (codes "a=%41&&b") [] []
    ≡ some (record {
      buffer = codes "aAb";
      indices =
          record { name_start = 0; name_end = 1; value = some (1, 2) }
          ∷ record { name_start = 2; name_end = 3; value = none }
          ∷ [];
      ret = 2;
    })
unfolding parse_query_string query_value append_decoded url_decode hex_byte memchr
two_fields = refl
