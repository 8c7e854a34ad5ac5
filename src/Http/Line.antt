-- ===== src/Http/Line.antt =====
-- `addHeader` notes only ranges within the line that it is given, and leaves the rest of the parser alone.
use cppsp_ng.Base.{
  ℕ, ◌+◌, ◌-◌, ◌≤◌, ◌<◌, ◌≡◌, refl, ◌∙◌, inl, inr, true, Option, none, some, List, Bool-cases,
  arith,
}
use cppsp_ng.Base.Int.{ℤ}
use cppsp_ng.Base.Bytes.{Bytes, codes, All, All-append}
use cppsp_ng.Base.Memory.{Memory, poke}
use cppsp_ng.Http.Text.{ci_equals}
use cppsp_ng.Http.Defs.{Header, Range, HttpParser, slice}
use cppsp_ng.Http.Read.{
  find_char, add_path, add_verb, add_request_line, note_content_length, note_host, push_header,
  header_at, add_field, add_line, add_header,
}
use cppsp_ng.Http.Valid.{InRange, HeaderIn, FoundIn, find_char-FoundIn, trim_bounds}

-- All parts that a parser has noted lie in the first `n` bytes of the request.
pub record Noted (n : ℕ) (p : HttpParser) : Type 0 where
  pub request_line_in : InRange n p.request_line
  pub verb_in : InRange n p.verb
  pub host_in : InRange n p.host
  pub path_in : InRange n p.path
  pub headers_in : All (HeaderIn n) p.headers

-- What a line that ends at `last` does not touch: the indices of the buffer, the state, and every byte
-- behind the line.
pub record Framed (last : ℕ) (p q : HttpParser) : Type 0 where
  pub begin_eq : q.begin ≡ p.begin
  pub end_eq : q.end ≡ p.end
  pub size_eq : q.size ≡ p.size
  pub state_eq : q.state ≡ p.state
  pub contents_eq : q.contents ≡ p.contents
  pub behind : (i : ℕ) → last < i → q.buffer i ≡ p.buffer i

module _ (n last : ℕ) where
  abbrev Kept : HttpParser → HttpParser → Type 0
  Kept p q = Noted n q × Framed last p q

  Kept-trans : (p q r : HttpParser) → Framed last p q → Kept q r → Kept p r
  Kept-trans p q r f (h, g) = (
    h,
    record {
      begin_eq = g.begin_eq ∙ f.begin_eq;
      end_eq = g.end_eq ∙ f.end_eq;
      size_eq = g.size_eq ∙ f.size_eq;
      state_eq = g.state_eq ∙ f.state_eq;
      contents_eq = g.contents_eq ∙ f.contents_eq;
      behind = λ i lt. g.behind i lt ∙ f.behind i lt;
    },
  )

  malformed-Kept : (p : HttpParser) → Noted n p → Kept p (record p { malformed = true })
  malformed-Kept p h = (
    record {
      request_line_in = h.request_line_in;
      verb_in = h.verb_in;
      host_in = h.host_in;
      path_in = h.path_in;
      headers_in = h.headers_in;
    },
    record {
      begin_eq = refl;
      end_eq = refl;
      size_eq = refl;
      state_eq = refl;
      contents_eq = refl;
      behind = λ i lt. refl;
    },
  )

  -- The parts may be noted anew, within bounds.
  noted-Kept :
      (p : HttpParser) (line verb host path : Range) (headers : List Header)
      → InRange n line
      → InRange n verb
      → InRange n host
      → InRange n path
      → All (HeaderIn n) headers
      → Kept p (record p {
        request_line = line;
        verb = verb;
        host = host;
        path = path;
        headers = headers;
      })
  noted-Kept p line verb host path headers a b c d e = (
    record { request_line_in = a; verb_in = b; host_in = c; path_in = d; headers_in = e },
    record {
      begin_eq = refl;
      end_eq = refl;
      size_eq = refl;
      state_eq = refl;
      contents_eq = refl;
      behind = λ i lt. refl;
    },
  )

  add_path-Kept :
      (p : HttpParser) (index : ℕ) (o : Option ℕ)
      → Noted n p
      → FoundIn (index + 1) last o
      → last - p.begin ≤ n
      → Kept p (add_path p index o)
  unfolding add_path
  add_path-Kept p index none h found fits = malformed-Kept p h
  add_path-Kept p index (some i) h (lo, hi) fits =
      noted-Kept p p.request_line p.verb p.host (some (index + 1 - p.begin, i - p.begin)) p.headers
        h.request_line_in h.verb_in h.host_in (omega arith) h.headers_in

  add_verb-Kept :
      (p : HttpParser) (begin : ℕ) (o : Option ℕ)
      → Noted n p
      → FoundIn begin last o
      → last - p.begin ≤ n
      → Kept p (add_verb p begin last o)
  unfolding add_verb
  add_verb-Kept p begin none h found fits = malformed-Kept p h
  add_verb-Kept p begin (some index) h (lo, hi) fits =
      let q = record p { verb = some (begin - p.begin, index - p.begin) } in
      let k : Kept p q =
        noted-Kept p p.request_line (some (begin - p.begin, index - p.begin)) p.host p.path
          p.headers h.request_line_in (omega arith) h.host_in h.path_in h.headers_in in
      Kept-trans p q _ k.1 (
        add_path-Kept q index (find_char p.buffer (index + 1) last 32) k.0
          (find_char-FoundIn p.buffer (index + 1) last 32) fits)

  add_request_line-Kept :
      (p : HttpParser) (begin : ℕ)
      → Noted n p
      → begin ≤ last
      → last - p.begin ≤ n
      → Kept p (add_request_line p begin last)
  unfolding add_request_line
  add_request_line-Kept p begin h le fits =
      let q = record p { request_line = some (begin - p.begin, last - p.begin) } in
      let k : Kept p q =
        noted-Kept p (some (begin - p.begin, last - p.begin)) p.verb p.host p.path p.headers
          (omega arith) h.verb_in h.host_in h.path_in h.headers_in in
      Kept-trans p q _ k.1 (
        add_verb-Kept q begin (find_char p.buffer begin last 32) k.0
          (find_char-FoundIn p.buffer begin last 32) fits)

-- A header in absolute indices, within a line.
pub record Placed (lo hi : ℕ) (h : Header) : Type 0 where
  pub name_from : lo ≤ h.name_start
  pub name_le : h.name_start ≤ h.name_end
  pub value_from : lo ≤ h.value_start
  pub value_le : h.value_start ≤ h.value_end
  pub name_hi : h.name_end ≤ hi
  pub value_hi : h.value_end ≤ hi

poke-behind : (mem : Memory) (a v i : ℕ) → a < i → poke mem a v i ≡ mem i
unfolding poke
poke-behind mem a v i lt = ground arith

module _ (atoi : Bytes → ℤ) where
  pub header_at-Placed :
      (mem : Memory) (begin last index : ℕ)
      → begin ≤ index
      → index < last
      → Placed begin last (header_at mem begin last index)
  unfolding header_at
  header_at-Placed mem begin last index lo hi =
      let name = trim_bounds mem begin index lo in
      let value = trim_bounds mem (index + 1) last (omega arith) in
      record {
        name_from = name.0;
        name_le = name.1;
        value_from = omega (arith, value.0);
        value_le = value.1;
        name_hi = omega (arith, name.2);
        value_hi = value.2;
      }

  module _ (n last : ℕ) where
    note_content_length-Kept :
        (p : HttpParser) (h : Header)
        → Noted n p
        → h.value_end ≤ last
        → Noted n (note_content_length atoi p h) × Framed last p (note_content_length atoi p h)
    unfolding note_content_length
    note_content_length-Kept p h k le =
        elim (Bool-cases
          (ci_equals (slice p.buffer h.name_start h.name_end) (codes "content-length"))) [
            | inl e ↦ rw e (
              record {
                request_line_in = k.request_line_in;
                verb_in = k.verb_in;
                host_in = k.host_in;
                path_in = k.path_in;
                headers_in = k.headers_in;
              },
              record {
                begin_eq = refl;
                end_eq = refl;
                size_eq = refl;
                state_eq = refl;
                contents_eq = refl;
                behind = λ i lt. poke-behind p.buffer h.value_end 0 i (omega arith);
              },
            )
            | inr e ↦ rw e (
                noted-Kept n last p p.request_line p.verb p.host p.path p.headers k.request_line_in
                  k.verb_in k.host_in k.path_in k.headers_in)
          ]

    note_host-Kept :
        (p : HttpParser) (h : Header) (lo : ℕ)
        → Noted n p
        → Placed lo last h
        → last - p.begin ≤ n
        → Noted n (note_host p h) × Framed last p (note_host p h)
    unfolding note_host
    note_host-Kept p h lo k place fits =
        elim (Bool-cases (ci_equals (slice p.buffer h.name_start h.name_end) (codes "host"))) [
          | inl e ↦ rw e (
              noted-Kept n last p p.request_line p.verb
                (some (h.value_start - p.begin, h.value_end - p.begin)) p.path p.headers
                k.request_line_in k.verb_in (omega arith) k.path_in k.headers_in)
          | inr e ↦ rw e (
              noted-Kept n last p p.request_line p.verb p.host p.path p.headers k.request_line_in
                k.verb_in k.host_in k.path_in k.headers_in)
        ]

    push_header-Kept :
        (p : HttpParser) (h : Header) (lo : ℕ)
        → Noted n p
        → Placed lo last h
        → last - p.begin ≤ n
        → Noted n (push_header p h) × Framed last p (push_header p h)
    unfolding push_header
    push_header-Kept p h lo k place fits =
        noted-Kept n last p p.request_line p.verb p.host p.path _ k.request_line_in k.verb_in
          k.host_in k.path_in (All-append (HeaderIn n) p.headers _ k.headers_in (omega arith, tt))

    add_field-Kept :
        (p : HttpParser) (begin : ℕ) (o : Option ℕ)
        → Noted n p
        → FoundIn begin last o
        → last - p.begin ≤ n
        → Noted n (add_field atoi p begin last o) × Framed last p (add_field atoi p begin last o)
    unfolding add_field
    add_field-Kept p begin none k found fits = malformed-Kept n last p k
    add_field-Kept p begin (some index) k (lo, hi) fits =
        let h = header_at p.buffer begin last index in
        let place = header_at-Placed p.buffer begin last index lo hi in
        let q = note_content_length atoi p h in
        let r = note_host q h in
        let a = note_content_length-Kept p h k place.value_hi in
        let fits' : last - q.begin ≤ n = omega (arith, a.1.begin_eq) in
        let b = note_host-Kept q h begin a.0 place fits' in
        let fits'' : last - r.begin ≤ n = omega (arith, a.1.begin_eq, b.1.begin_eq) in
        let c = push_header-Kept r h begin b.0 place fits'' in
        Kept-trans n last p q _ a.1 (Kept-trans n last q r _ b.1 c)

    add_line-Kept :
        (p : HttpParser) (begin : ℕ) (o : Range)
        → Noted n p
        → begin ≤ last
        → last - p.begin ≤ n
        → Noted n (add_line atoi p begin last o) × Framed last p (add_line atoi p begin last o)
    unfolding add_line
    add_line-Kept p begin none k le fits = add_request_line-Kept n last p begin k le fits
    add_line-Kept p begin (some r) k le fits =
        add_field-Kept p begin (find_char p.buffer begin last b':') k
          (find_char-FoundIn p.buffer begin last b':') fits

    -- Adding the line from `begin` to `last` notes only parts below `last`.
    pub add_header-Kept :
        (p : HttpParser) (begin : ℕ)
        → Noted n p
        → begin ≤ last
        → last - p.begin ≤ n
        → Noted n (add_header atoi p begin last) × Framed last p (add_header atoi p begin last)
    unfolding add_header
    add_header-Kept p begin = add_line-Kept p begin p.request_line
