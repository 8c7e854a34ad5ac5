-- ===== src/Query/Pairs.antt =====
-- What `parseQueryStringImpl` finds: the names and values of the fields between the ampersands.
use mathlib.Core.List.{map}
use mathlib.Core.Path.{subst, subst₂, ap₂, fun_ext}
use cppsp_ng.Base.{
  ℕ, zero, suc, ◌+◌, ◌-◌, ◌<◌, ◌≡◌, refl, sym, ap, ◌∙◌, inl, inr, Option, none, some, List, [], ◌∷◌,
  ◌++◌, append-nil, append_assoc, take, drop, length, length-append, length-drop, take-append_self,
  drop-append_self, drop-append_add, arith,
}
use cppsp_ng.Base.Bytes.{Bytes}
use cppsp_ng.Base.Search.{Lacks, memchr, memchr-cases, memchr-Lacks, memchr-append}
use cppsp_ng.Url.Decode.{decoded, url_decode-decoded}
use cppsp_ng.Split.Fields.{fields, fields-Lacks, fields-FoundAt}
use cppsp_ng.Query.Defs.{
  view, show_entry, path_parts, parse_path, Entry, Query, ◌>>=◌, append_decoded, query_field,
  query_value, query_loop, parse_query_string,
}

-- A name with its value, if it has one.
abbrev pub Pair : Type 0
Pair = Bytes × Option Bytes

-- The name and the value of a field: what stands before and behind the first "=", each decoded.
unfoldable pub pair_of : Bytes → Option ℕ → Pair
pair_of v none = (decoded v, none)
pair_of v (some i) = (decoded (take i v), some (decoded (drop (suc i) v)))

-- Those of a list of fields, of which the empty ones are left out.
unfoldable pub pairs : List Bytes → List Pair
pairs [] = []
pairs ([] ∷ vs) = pairs vs
pairs ((c ∷ v) ∷ vs) = pair_of (c ∷ v) (memchr b'=' (c ∷ v)) ∷ pairs vs

-- The text of a pair in the output buffer, and the entry that says where it stands there.
abbrev pair_text : Pair → Bytes
pair_text (n, none) = n
pair_text (n, some v) = n ++ v

unfoldable pub pairs_text : List Pair → Bytes
pairs_text [] = []
pairs_text (p ∷ ps) = pair_text p ++ pairs_text ps

abbrev entry_at : ℕ → Pair → Entry
entry_at a (n, none) = record { name_start = a; name_end = a + length n; value = none }
entry_at a (n, some v) = record {
  name_start = a;
  name_end = a + length n;
  value = some (a + length n, a + length n + length v);
}

unfoldable pub entries_from : ℕ → List Pair → List Entry
entries_from a [] = []
entries_from a (p ∷ ps) = entry_at a p ∷ entries_from (a + length (pair_text p)) ps

-- A query state with more pairs behind those that it has.
abbrev more_pairs : Query → List Pair → Query
more_pairs q ps = record {
  buffer = q.buffer ++ pairs_text ps;
  indices = q.indices ++ entries_from (length q.buffer) ps;
  ret = q.ret + length ps;
}

append_decoded-decoded : (s out : Bytes) → append_decoded s out ≡ some (out ++ decoded s)
unfolding append_decoded
append_decoded-decoded s out = rw (append_decoded, url_decode-decoded s out)

more_pairs-nil : (q : Query) → more_pairs q [] ≡ q
unfolding pairs_text entries_from
more_pairs-nil q = λ i. record {
  buffer = append-nil q.buffer i;
  indices = append-nil q.indices i;
  ret = (let e : q.ret + 0 ≡ q.ret = omega arith in e) i;
}

Query-eq :
    {b b' : Bytes} {e e' : List Entry} {r r' : ℕ}
    → b ≡ b'
    → e ≡ e'
    → r ≡ r'
    → ◌≡◌ {A = Query}
        (record { buffer = b; indices = e; ret = r })
        (record { buffer = b'; indices = e'; ret = r' })
Query-eq p s u = λ i. record { buffer = p i; indices = s i; ret = u i }

query_field-more_pairs :
    (q : Query) (v : Bytes) (o : Option ℕ)
    → query_field q v o ≡ some (more_pairs q (pair_of v o ∷ []))
unfolding query_field pairs_text entries_from pair_of
query_field-more_pairs q v none = rw (append_decoded-decoded v q.buffer) (
    ap some (
      Query-eq (ap (λ (t : Bytes). q.buffer ++ t) (sym (append-nil (decoded v))))
        (ap
          (λ (n : ℕ).
            q.indices ++ record { name_start = length q.buffer; name_end = n; value = none } ∷ [])
          (length-append q.buffer (decoded v)))
        refl))
query_field-more_pairs q v (some i) =
    let n = decoded (take i v) in
    let m = decoded (drop (suc i) v) in
    rw
      (
        append_decoded-decoded (take i v) q.buffer,
        append_decoded-decoded (drop (suc i) v) (q.buffer ++ n),
      )
      (ap some (
        Query-eq (simp (append-nil, append_assoc))
          (ap₂
            (λ (a b : ℕ).
              q.indices
              ++ record { name_start = length q.buffer; name_end = a; value = some (a, b) } ∷ [])
            (length-append q.buffer n)
            (omega (arith, length-append (q.buffer ++ n) m, length-append q.buffer n)))
          refl))

more_pairs-cons :
    (q : Query) (p : Pair) (ps : List Pair)
    → more_pairs (more_pairs q (p ∷ [])) ps ≡ more_pairs q (p ∷ ps)
unfolding pairs_text entries_from
more_pairs-cons q p ps =
    Query-eq (simp (append-nil, append_assoc))
      (append_assoc q.indices (entry_at (length q.buffer) p ∷ []) _
        ∙ ap (λ (a : ℕ). q.indices ++ entry_at (length q.buffer) p ∷ entries_from a ps)
            (rw append-nil (length-append q.buffer (pair_text p))))
      (omega arith)

-- The loop as a recursion on the values that it sees.
run_values : List Bytes → Query → Option Query
run_values [] q = some q
run_values (v ∷ vs) q = do q' ← query_value q v; run_values vs q'

run_values-pairs : (vs : List Bytes) (q : Query) → run_values vs q ≡ some (more_pairs q (pairs vs))
unfolding run_values query_value pairs
run_values-pairs [] q = ap some (sym (more_pairs-nil q))
run_values-pairs ([] ∷ vs) q = run_values-pairs vs q
run_values-pairs ((c ∷ v) ∷ vs) q =
    let p = pair_of (c ∷ v) (memchr b'=' (c ∷ v)) in
    rw (query_field-more_pairs q (c ∷ v) (memchr b'=' (c ∷ v)))
      (run_values-pairs vs (more_pairs q (p ∷ [])) ∙ ap some (more_pairs-cons q p (pairs vs)))

module _ (fuel d : ℕ) (old : Bytes) (c : ℕ) (s : Bytes) (q : Query) where
  query_loop_last :
      memchr d (c ∷ s) ≡ none
      → query_loop (suc (suc fuel)) (record { rest = some (c ∷ s); value = old; delim = d }) q
        ≡ run_values ((c ∷ s) ∷ []) q
  unfolding query_loop run_values
  query_loop_last e = rw e

  query_loop_next :
      (i : ℕ)
      → memchr d (c ∷ s) ≡ some i
      → query_loop (suc fuel) (record { rest = some (c ∷ s); value = old; delim = d }) q ≡ (
          query_value q (take i (c ∷ s))
          >>= query_loop fuel
              (record { rest = some (drop (suc i) (c ∷ s)); value = take i (c ∷ s); delim = d }))
  unfolding query_loop
  query_loop_next i e = rw e

query_loop-run_values :
    (fuel d : ℕ) (old s : Bytes) (q : Query)
    → length s + 1 < fuel
    → query_loop fuel (record { rest = some s; value = old; delim = d }) q
      ≡ run_values (fields d s) q
query_loop-run_values zero d old s q h = absurd (omega arith)
query_loop-run_values (suc fuel) d old [] q h = unfold query_loop fields run_values in refl
query_loop-run_values (suc zero) d old (c ∷ s) q h = absurd (omega arith)
query_loop-run_values (suc (suc fuel)) d old (c ∷ s) q h = elim (memchr-cases d (c ∷ s)) [
  | inl (e, lacks) ↦
      query_loop_last fuel d old c s q e
      ∙ ap (λ (vs : List Bytes). run_values vs q) (sym (fields-Lacks d c s lacks))
  | inr (i, e, found) ↦
      query_loop_next (suc fuel) d old c s q i e
      ∙ ap (λ (f : Query → Option Query). query_value q (take i (c ∷ s)) >>= f)
          (fun_ext λ q'.
            query_loop-run_values (suc fuel) d (take i (c ∷ s)) (drop (suc i) (c ∷ s)) q'
              (omega (arith, length-drop (suc i) (c ∷ s))))
      ∙ sym (
          unfold run_values in
          ap (λ (vs : List Bytes). run_values vs q) (fields-FoundAt d (c ∷ s) i found))
]

-- The loop over a query string ends within two rounds more than the string has bytes. It appends the
-- decoded names and values to the buffer and one entry for each field that is not empty, and returns
-- the number of these fields.
pub parse_query_string-pairs :
    (s out : Bytes) (indices : List Entry)
    → let ps = pairs (fields b'&' s) in
      parse_query_string s out indices
      ≡ some (record {
        buffer = out ++ pairs_text ps;
        indices = indices ++ entries_from (length out) ps;
        ret = 0 + length ps;
      })
unfolding parse_query_string
parse_query_string-pairs s out indices =
    query_loop-run_values (length s + 2) b'&' [] s _ (omega arith)
    ∙ run_values-pairs (fields b'&' s) _

-- The name and the value of a pair as a request shows them: no value is an empty one.
abbrev pub shown : Pair → Bytes × Bytes
shown (n, none) = (n, [])
shown (n, some v) = (n, v)

view-append :
    (pre s post : Bytes) (b : ℕ)
    → b ≡ length pre + length s
    → view (pre ++ (s ++ post)) (length pre) b ≡ s
view-append pre s post b e =
    let n : b - length pre ≡ length s = omega arith in
    rw (n, drop-append_self pre (s ++ post), take-append_self s post)

show_entry-entry_at :
    (pre post : Bytes) (p : Pair)
    → show_entry (pre ++ (pair_text p ++ post)) (entry_at (length pre) p) ≡ shown p
unfolding show_entry
show_entry-entry_at pre post (n, none) = ap (λ (t : Bytes). (t, [])) (view-append pre n post _ refl)
show_entry-entry_at pre post (n, some v) =
    let text : Bytes = pre ++ ((n ++ v) ++ post) in
    let first : view text (length pre) (length pre + length n) ≡ n =
      rw (append_assoc n v post) (view-append pre n (v ++ post) _ refl) in
    let second : view text (length (pre ++ n)) (length (pre ++ n) + length v) ≡ v =
      rw (append_assoc n v post, ← append_assoc pre n (v ++ post))
        (view-append (pre ++ n) v post _ refl) in
    ap₂ (λ (a b : Bytes). (a, b)) first
      (subst (λ k. view text k (k + length v) ≡ v) (length-append pre n) second)

map-show_entry :
    (pre : Bytes) (ps : List Pair)
    → map (show_entry (pre ++ pairs_text ps)) (entries_from (length pre) ps) ≡ map shown ps
unfolding pairs_text entries_from
map-show_entry pre [] = refl
map-show_entry pre (p ∷ ps) =
    ap₂ (λ (x : Bytes × Bytes) (xs : List (Bytes × Bytes)). x ∷ xs)
      (show_entry-entry_at pre (pairs_text ps) p)
      (subst₂ (λ b k. map (show_entry b) (entries_from k ps) ≡ map shown ps)
        (append_assoc pre (pair_text p) (pairs_text ps)) (length-append pre (pair_text p))
        (map-show_entry (pre ++ pair_text p) ps))

-- A path without "?" is left as it is, and has no query strings.
-- A path with one ends before the first, and the query strings are the decoded names and values of the
-- fields behind it that are not empty, in their order; a field without "=" has an empty value.
pub parse_path-pairs :
    (path query : Bytes)
    → Lacks b'?' path
    → (parse_path path ≡ some (record { path = path; query_strings = [] }))
      × (parse_path (path ++ b'?' ∷ query)
          ≡ some (record { path = path; query_strings = map shown (pairs (fields b'&' query)) }))
unfolding parse_path
parse_path-pairs path query h =
    let e : drop (length path + 1) (path ++ b'?' ∷ query) ≡ query =
      drop-append_add path (b'?' ∷ query) 1 in
    let ps = pairs (fields b'&' query) in
    (
      rw (parse_path, memchr-Lacks b'?' path h),
      rw
          (
            parse_path,
            memchr-append b'?' path query h,
            path_parts,
            e,
            parse_query_string-pairs query [] [],
            take-append_self path (b'?' ∷ query),
          )
          (ap (λ (qs : List (Bytes × Bytes)). some (record { path = path; query_strings = qs }))
            (map-show_entry [] ps)),
    )
