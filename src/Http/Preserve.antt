-- ===== src/Http/Preserve.antt =====
-- `readRequest` ends, keeps the invariant, only moves forward, and leaves alone what it has not read.
use cppsp_ng.Base.{
  ℕ, zero, suc, ◌+◌, ◌-◌, ◌≤◌, ◌<◌, ◌≡◌, refl, ◌∙◌, inl, inr, Bool, true, false, ◌||◌, Option, some,
  ltb, leb, ◌==◌, Bool-cases, arith,
}
use cppsp_ng.Base.Int.{ℤ, pos, pos_part, ltb_ℤ}
use cppsp_ng.Base.Bytes.{Bytes, codes}
use cppsp_ng.Base.Find.{find_line_end-cases}
use cppsp_ng.Http.Text.{ci_equals}
use cppsp_ng.Http.Defs.{State, read_headers, read_content, HttpParser, max_request_size, part}
use cppsp_ng.Http.Read.{
  add_header, read_contents, is_none, is_zero, end_of_headers, header_loop, read_by_state,
  read_request,
}
use cppsp_ng.Http.Valid.{IsValid, InRange, InRange-mono, HeaderIn-mono}
use cppsp_ng.Http.Line.{Noted, add_header-Kept}

-- What a call of `readRequest` may change: it stays on the same buffer and the same request, reads on,
-- and leaves every byte that it has not read as it was.
pub record Advanced (p q : HttpParser) : Type 0 where
  pub begin_eq : q.begin ≡ p.begin
  pub end_eq : q.end ≡ p.end
  pub size_eq : q.size ≡ p.size
  pub processed_le : p.processed ≤ q.processed
  pub unread : (i : ℕ) → q.processed ≤ i → q.buffer i ≡ p.buffer i

abbrev pub Answers : HttpParser → Option (Bool × HttpParser) → Type 0
Answers p o = (done : Bool) × (q : HttpParser) × (o ≡ some (done, q)) × IsValid q × Advanced p q

IsValid-Noted : {p : HttpParser} (n : ℕ) → IsValid p → p.processed - p.begin ≤ n → Noted n p
IsValid-Noted {p} n v le = record {
  request_line_in = InRange-mono _ n p.request_line le v.request_line_in;
  verb_in = InRange-mono _ n p.verb le v.verb_in;
  host_in = InRange-mono _ n p.host le v.host_in;
  path_in = InRange-mono _ n p.path le v.path_in;
  headers_in = HeaderIn-mono _ n p.headers le v.headers_in;
}

Advanced-trans : {p q r : HttpParser} → Advanced p q → Advanced q r → Advanced p r
Advanced-trans a b = record {
  begin_eq = b.begin_eq ∙ a.begin_eq;
  end_eq = b.end_eq ∙ a.end_eq;
  size_eq = b.size_eq ∙ a.size_eq;
  processed_le = omega (arith, a.processed_le, b.processed_le);
  unread = λ i le. b.unread i le ∙ a.unread i (omega (arith, b.processed_le));
}

-- Reading on without touching the parts or the buffer.
module _ {p : HttpParser} (v : IsValid p) where
  pub skip-IsValid :
      (processed : ℕ) (malformed : Bool) (state : State) (contents : Option (ℕ × ℕ))
      → p.processed ≤ processed
      → processed ≤ p.end
      → InRange p.size contents
      → IsValid (record p {
        processed = processed;
        malformed = malformed;
        state = state;
        contents = contents;
      })
        × Advanced p (record p {
          processed = processed;
          malformed = malformed;
          state = state;
          contents = contents;
        })
  skip-IsValid processed malformed state contents le hi known =
      let k = IsValid-Noted (processed - p.begin) v (omega arith) in
      (
        record {
          begin_le = omega (arith, v.begin_le);
          processed_le = hi;
          end_le = v.end_le;
          size_pos = v.size_pos;
          request_line_in = k.request_line_in;
          verb_in = k.verb_in;
          host_in = k.host_in;
          path_in = k.path_in;
          headers_in = k.headers_in;
          contents_in = known;
        },
        record {
          begin_eq = refl;
          end_eq = refl;
          size_eq = refl;
          processed_le = le;
          unread = λ i h. refl;
        },
      )

module _ (atoi : Bytes → ℤ) where
  -- The parser behind a line that ends at `index`.
  abbrev pub next_line : HttpParser → ℕ → HttpParser
  next_line p index = record (add_header atoi p p.processed index) { processed = index + 2 }

  pub next_line-IsValid :
      {p : HttpParser} (index : ℕ)
      → IsValid p
      → p.processed ≤ index
      → suc index < p.end
      → IsValid (next_line p index) × Advanced p (next_line p index)
  next_line-IsValid {p} index v lo hi =
      let n = index + 2 - p.begin in
      let (k, f) =
        add_header-Kept atoi n index p p.processed (IsValid-Noted n v (omega arith)) lo
          (omega arith) in
      let q = add_header atoi p p.processed index in
      let le : n ≤ index + 2 - q.begin = omega (arith, f.begin_eq) in
      (
        record {
          begin_le = omega (arith, f.begin_eq, v.begin_le);
          processed_le = omega (arith, f.end_eq);
          end_le = omega (arith, f.end_eq, f.size_eq, v.end_le);
          size_pos = omega (arith, f.size_eq, v.size_pos);
          request_line_in = InRange-mono n _ q.request_line le k.request_line_in;
          verb_in = InRange-mono n _ q.verb le k.verb_in;
          host_in = InRange-mono n _ q.host le k.host_in;
          path_in = InRange-mono n _ q.path le k.path_in;
          headers_in = HeaderIn-mono n _ q.headers le k.headers_in;
          contents_in = rw (f.contents_eq, f.size_eq) v.contents_in;
        },
        record {
          begin_eq = f.begin_eq;
          end_eq = f.end_eq;
          size_eq = f.size_eq;
          processed_le = omega arith;
          unread = λ i le. f.behind i (omega arith);
        },
      )

  pub state-next_line :
      {p : HttpParser} (index : ℕ)
      → IsValid p
      → p.processed ≤ index
      → (next_line p index).state ≡ p.state
  state-next_line {p} index v lo =
      let n = index + 2 - p.begin in
      (add_header-Kept atoi n index p p.processed (IsValid-Noted n v (omega arith)) lo
        (omega arith)).1.state_eq

  abbrev pub Reads : HttpParser → Bool × HttpParser → Type 0
  Reads p r = IsValid r.1 × Advanced p r.1

  pub read_contents-Reads : {p : HttpParser} → IsValid p → Reads p (read_contents atoi p)
  unfolding read_contents
  read_contents-Reads {p} v =
      elim (Bool-cases
        (ltb_ℤ p.content_length (pos 0) || ltb_ℤ (pos max_request_size) p.content_length)) [
          | inl bad ↦ rw bad (
              skip-IsValid v p.processed true p.state p.contents (omega arith) v.processed_le
                v.contents_in)
          | inr good ↦ elim (Bool-cases (leb (pos_part p.content_length) (p.end - p.processed))) [
            | inl all ↦
                let fits : p.processed + pos_part p.content_length ≤ p.end =
                  ground (arith, v.processed_le) in
                rw (good, all)
                  (skip-IsValid v (p.processed + pos_part p.content_length) p.malformed read_headers
                    (some (p.processed, p.processed + pos_part p.content_length)) (omega arith) fits
                    (omega (arith, v.end_le)))
            | inr some_left ↦
                rw (good, some_left)
                  (skip-IsValid v p.processed p.malformed p.state p.contents (omega arith)
                    v.processed_le v.contents_in)
          ]
        ]

  end_of_headers-Reads : {p : HttpParser} → IsValid p → Reads p (end_of_headers atoi p)
  unfolding end_of_headers
  end_of_headers-Reads {p} v = elim (Bool-cases (is_none p.request_line)) [
    | inl no_line ↦ rw no_line (
        skip-IsValid v p.processed true p.state p.contents (omega arith) v.processed_le
          v.contents_in)
    | inr line ↦
        elim (Bool-cases (ci_equals (part p p.verb) (codes "get") || is_zero p.content_length)) [
          | inl no_body ↦
              rw (line, no_body)
                (skip-IsValid v p.processed p.malformed p.state p.contents (omega arith)
                  v.processed_le v.contents_in)
          | inr body ↦
              let (v', a) =
                skip-IsValid v p.processed p.malformed read_content p.contents (omega arith)
                  v.processed_le v.contents_in in
              let (w, b) = read_contents-Reads v' in rw (line, body) (w, Advanced-trans a b)
        ]
  ]

  Answers-trans :
      {p q : HttpParser} (o : Option (Bool × HttpParser)) → Advanced p q → Answers q o → Answers p o
  Answers-trans o a (done, r, e, v, b) = (done, r, e, v, Advanced-trans a b)

  header_loop-Answers :
      (fuel : ℕ) {p : HttpParser}
      → IsValid p
      → p.end - p.processed < fuel
      → Answers p (header_loop atoi fuel p)
  unfolding header_loop
  header_loop-Answers zero v h = absurd (omega arith)
  header_loop-Answers (suc fuel) {p} v h =
      elim (find_line_end-cases p.buffer p.processed (p.end - p.processed)) [
        | inl (e, _) ↦ elim (Bool-cases (ltb p.processed p.end)) [
          | inl more ↦ rw (more, e) (false, p, refl, v, stay)
          | inr empty ↦ rw empty (false, p, refl, v, stay)
        ]
        | inr (index, e, at) ↦
            let inside : suc index < p.end = omega (arith, at.before, at.from, v.processed_le) in
            let more : ltb p.processed p.end ≡ true = ground (arith, at.from) in
            elim (Bool-cases (p.processed == index)) [
              | inl blank ↦
                  let (v', a) =
                    skip-IsValid v (index + 2) p.malformed p.state p.contents
                      (omega (arith, at.from)) (omega arith) v.contents_in in
                  let (w, b) = end_of_headers-Reads v' in
                  rw (more, e, blank) (_, _, refl, w, Advanced-trans a b)
              | inr line ↦
                  let (v', a) = next_line-IsValid index v at.from inside in
                  rw (more, e, line)
                    (Answers-trans _ a
                      (header_loop-Answers fuel v' (omega (arith, a.end_eq, at.from))))
            ]
      ]
    where
      stay : Advanced p p
      stay =
          (skip-IsValid v p.processed p.malformed p.state p.contents (omega arith) v.processed_le
            v.contents_in).1

  -- On a valid parser `readRequest` ends with an answer within the rounds that it is given, one more than
  -- there are bytes to read. It keeps the invariant and the place of the request in the buffer, moves
  -- `bufferProcessed` forward only, and changes no byte from there on.
  pub read_request-Answers :
      (p : HttpParser)
      → IsValid p
      → (done : Bool) × (q : HttpParser) × (read_request atoi p ≡ some (done, q))
        × IsValid q
        × Advanced p q
  unfolding read_request
  read_request-Answers p v = elim (Bool-cases (leb max_request_size (p.end - p.begin))) [
    | inl large ↦
        let (v', a) =
          skip-IsValid v p.processed true p.state p.contents (omega arith) v.processed_le
            v.contents_in in
        rw large (true, _, refl, v', a)
    | inr small ↦ rw small (by_state p.state)
  ]
    where
      by_state : (s : State) → Answers p (read_by_state atoi p s)
      by_state read_headers = header_loop-Answers (suc (p.end - p.processed)) v (omega arith)
      by_state read_content = let (w, a) = read_contents-Reads v in (_, _, refl, w, a)
