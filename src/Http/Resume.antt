-- ===== src/Http/Resume.antt =====
-- A request that comes in pieces is parsed as if it had come at once.
use mathlib.Core.Path.{subst}
use cppsp_ng.Base.{
  ℕ, zero, suc, ◌+◌, ◌-◌, ◌≤◌, ◌<◌, ◌≡◌, refl, sym, ap, ◌∙◌, inl, inr, Bool, true, false, ◌||◌,
  Option, none, some, ltb, leb, ◌==◌, Bool-cases, of_some, arith,
}
use cppsp_ng.Base.Int.{ℤ, pos, pos_part, ltb_ℤ}
use cppsp_ng.Base.Bytes.{Bytes, codes}
use cppsp_ng.Base.Memory.{find_line_end}
use cppsp_ng.Base.Find.{find_line_end-cases}
use cppsp_ng.Http.Text.{ci_equals}
use cppsp_ng.Http.Defs.{State, read_headers, read_content, HttpParser, max_request_size, part}
use cppsp_ng.Http.Read.{
  read_contents, is_none, is_zero, end_of_headers, header_loop, read_by_state, read_request,
}
use cppsp_ng.Http.Valid.{IsValid}
use cppsp_ng.Http.Preserve.{next_line, next_line-IsValid, state-next_line, read_request-Answers}
use cppsp_ng.Http.Extend.{extend, find_line_end-extend, add_header-extend}

-- What holds of the parser if the answer is that the request is not complete.
abbrev Waits : (HttpParser → Type 0) → Option (Bool × HttpParser) → Type 0
Waits P none = Unit
Waits P (some (true, q)) = Unit
Waits P (some (false, q)) = P q

Waits-map :
    {P Q : HttpParser → Type 0} (o : Option (Bool × HttpParser))
    → ((q : HttpParser) → P q → Q q)
    → Waits P o
    → Waits Q o
Waits-map none f w = tt
Waits-map (some (true, q)) f w = tt
Waits-map (some (false, q)) f w = f q w

module _ (atoi : Bytes → ℤ) where
  -- A round of the loop, given what the search for a line end says.
  module _ (fuel : ℕ) (p : HttpParser) where
    pub loop_stop :
        find_line_end p.buffer p.processed (p.end - p.processed) ≡ none
        → header_loop atoi (suc fuel) p ≡ some (false, p)
    unfolding header_loop
    loop_stop e = elim (Bool-cases (ltb p.processed p.end)) [ inl t ↦ rw (t, e) | inr t ↦ rw t ]

    pub loop_blank :
        (index : ℕ)
        → find_line_end p.buffer p.processed (p.end - p.processed) ≡ some index
        → p.processed < p.end
        → p.processed ≡ index
        → header_loop atoi (suc fuel) p
          ≡ some (end_of_headers atoi (record p { processed = index + 2 }))
    unfolding header_loop
    loop_blank index e more same =
        let t : ltb p.processed p.end ≡ true = ground arith in
        let u : (p.processed == index) ≡ true = ground arith in rw (t, e, u)

    pub loop_line :
        (index : ℕ)
        → find_line_end p.buffer p.processed (p.end - p.processed) ≡ some index
        → p.processed < p.end
        → (p.processed == index) ≡ false
        → header_loop atoi (suc fuel) p ≡ header_loop atoi fuel (next_line atoi p index)
    unfolding header_loop
    loop_line index e more other =
        let t : ltb p.processed p.end ≡ true = ground arith in rw (t, e, other)

  -- Any fuel that is enough gives the same answer.
  header_loop-fuel :
      (fuel fuel' : ℕ) {p : HttpParser}
      → IsValid p
      → p.end - p.processed < fuel
      → p.end - p.processed < fuel'
      → header_loop atoi fuel p ≡ header_loop atoi fuel' p
  header_loop-fuel zero fuel' v h h' = absurd (omega arith)
  header_loop-fuel (suc fuel) zero v h h' = absurd (omega arith)
  header_loop-fuel (suc fuel) (suc fuel') {p} v h h' =
      elim (find_line_end-cases p.buffer p.processed (p.end - p.processed)) [
        | inl (e, _) ↦ loop_stop fuel p e ∙ sym (loop_stop fuel' p e)
        | inr (index, e, at) ↦
            let more : p.processed < p.end = omega (arith, at.before, at.from) in
            elim (Bool-cases (p.processed == index)) [
              | inl t ↦
                  let same : p.processed ≡ index = ground arith in
                  loop_blank fuel p index e more same ∙ sym (loop_blank fuel' p index e more same)
              | inr t ↦
                  let (v', a) =
                    next_line-IsValid atoi index v at.from (omega (arith, at.before, at.from)) in
                  loop_line fuel p index e more t
                  ∙ header_loop-fuel fuel fuel' v' (omega (arith, a.end_eq, at.from))
                      (omega (arith, a.end_eq, at.from))
                  ∙ sym (loop_line fuel' p index e more t)
            ]
      ]

  read_contents-Waits : (p : HttpParser) → Waits (λ q. q ≡ p) (some (read_contents atoi p))
  unfolding read_contents
  read_contents-Waits p =
      elim (Bool-cases
        (ltb_ℤ p.content_length (pos 0) || ltb_ℤ (pos max_request_size) p.content_length)) [
          | inl bad ↦ rw bad tt
          | inr good ↦ elim (Bool-cases (leb (pos_part p.content_length) (p.end - p.processed))) [
            | inl all ↦ rw (good, all) tt
            | inr left ↦ rw (good, left) refl
          ]
        ]

  end_of_headers_body :
      (p : HttpParser)
      → is_none p.request_line ≡ false
      → (ci_equals (part p p.verb) (codes "get") || is_zero p.content_length) ≡ false
      → end_of_headers atoi p ≡ read_contents atoi (record p { state = read_content })
  unfolding end_of_headers
  end_of_headers_body p line body = rw (line, body)

  part-extend : (e : ℕ) (p : HttpParser) (r : Option (ℕ × ℕ)) → part (extend e p) r ≡ part p r
  unfolding part
  part-extend e p none = refl
  part-extend e p (some (s, t)) = refl

  -- The headers are complete, but not the contents: then the parser waits for these.
  end_of_headers-Waits :
      (e : ℕ) (p : HttpParser)
      → Waits
          (λ q.
            (q.state ≡ read_content)
            × (read_contents atoi (extend e q) ≡ end_of_headers atoi (extend e p)))
          (some (end_of_headers atoi p))
  end_of_headers-Waits e p = elim (Bool-cases (is_none p.request_line)) [
    | inl no_line ↦ unfold end_of_headers in rw no_line tt
    | inr line ↦
        elim (Bool-cases (ci_equals (part p p.verb) (codes "get") || is_zero p.content_length)) [
          | inl no_body ↦ unfold end_of_headers in rw (line, no_body) tt
          | inr body ↦
              let body' : (ci_equals (part (extend e p) p.verb) (codes "get")
                    || is_zero p.content_length)
                  ≡ false =
                rw (part-extend e p p.verb) body in
              rw (end_of_headers_body p line body, end_of_headers_body (extend e p) line body')
                (Waits-map (some (read_contents atoi (record p { state = read_content })))
                  (λ q same.
                    (ap (λ r. r.state) same, ap (λ r. read_contents atoi (extend e r)) same))
                  (read_contents-Waits (record p { state = read_content })))
        ]
  ]

  contents-Waits :
      (e : ℕ) (p : HttpParser)
      → Waits
          (λ q. read_by_state atoi (extend e q) q.state ≡ some (end_of_headers atoi (extend e p)))
          (some (end_of_headers atoi p))
  contents-Waits e p =
      Waits-map
        {P = λ q.
          (q.state ≡ read_content)
          × (read_contents atoi (extend e q) ≡ end_of_headers atoi (extend e p))}
        (some (end_of_headers atoi p))
        (λ q (waiting, same).
          ap (read_by_state atoi (extend e q)) waiting ∙ unfold read_by_state in ap some same)
        (end_of_headers-Waits e p)

  extend-IsValid :
      (e : ℕ) {p : HttpParser} → IsValid p → p.end ≤ e → e ≤ p.size → IsValid (extend e p)
  extend-IsValid e v lo hi = record {
    begin_le = v.begin_le;
    processed_le = omega (arith, v.processed_le);
    end_le = hi;
    size_pos = v.size_pos;
    request_line_in = v.request_line_in;
    verb_in = v.verb_in;
    host_in = v.host_in;
    path_in = v.path_in;
    headers_in = v.headers_in;
    contents_in = v.contents_in;
  }

  next_line-extend :
      (e : ℕ) (p : HttpParser) (index : ℕ)
      → next_line atoi (extend e p) index ≡ extend e (next_line atoi p index)
  next_line-extend e p index =
      ap (λ (q : HttpParser). record q { processed = index + 2 })
        (add_header-extend e atoi p p.processed index)

  -- Where the loop stops for want of data, going on from there with more data gives what the loop over all
  -- the data gives.
  header_loop-resume :
      (e fuel fuel' : ℕ) {p : HttpParser}
      → IsValid p
      → p.state ≡ read_headers
      → p.end ≤ e
      → e ≤ p.size
      → p.end - p.processed < fuel
      → e - p.processed < fuel'
      → Waits
          (λ q. read_by_state atoi (extend e q) q.state ≡ header_loop atoi fuel' (extend e p))
          (header_loop atoi fuel p)
  header_loop-resume e zero fuel' v st lo hi h h' = absurd (omega arith)
  header_loop-resume e (suc fuel) zero v st lo hi h h' = absurd (omega arith)
  header_loop-resume e (suc fuel) (suc fuel') {p} v st lo hi h h' =
      elim (find_line_end-cases p.buffer p.processed (p.end - p.processed)) [
        | inl (none_found, _) ↦
            rw (loop_stop fuel p none_found) (ap (read_by_state atoi (extend e p)) st ∙ restart)
        | inr (index, found, at) ↦
            let found' =
              find_line_end-extend p.buffer p.processed (p.end - p.processed) (e - p.processed)
                index (omega arith) found in
            let more : p.processed < p.end = omega (arith, at.before, at.from) in
            elim (Bool-cases (p.processed == index)) [
              | inl blank ↦
                  let same : p.processed ≡ index = ground arith in
                  rw
                    (
                      loop_blank fuel p index found more same,
                      loop_blank fuel' (extend e p) index found' (omega arith) same,
                    )
                    (contents-Waits e (record p { processed = index + 2 }))
              | inr line ↦
                  let (v', a) =
                    next_line-IsValid atoi index v at.from (omega (arith, at.before, at.from)) in
                  let st' : (next_line atoi p index).state ≡ read_headers =
                    state-next_line atoi index v at.from ∙ st in
                  rw
                    (
                      loop_line fuel p index found more line,
                      loop_line fuel' (extend e p) index found' (omega arith) line,
                      next_line-extend e p index,
                    )
                    (header_loop-resume e fuel fuel' v' st' (omega (arith, a.end_eq))
                      (omega (arith, a.size_eq)) (omega (arith, a.end_eq, at.from))
                      (omega (arith, at.from, at.before)))
            ]
      ]
    where
      restart :
          read_by_state atoi (extend e p) read_headers ≡ header_loop atoi (suc fuel') (extend e p)
      restart =
          unfold read_by_state in
          header_loop-fuel (suc (e - p.processed)) (suc fuel') (extend-IsValid e v lo hi)
            (omega arith) (omega arith)

  read_request_small :
      (p : HttpParser)
      → p.end - p.begin < max_request_size
      → read_request atoi p ≡ read_by_state atoi p p.state
  unfolding read_request
  read_request_small p h =
      let t : leb max_request_size (p.end - p.begin) ≡ false = ground arith in rw t

  read_by_state-Waits :
      (e : ℕ) (p : HttpParser) (s : State)
      → p.state ≡ s
      → IsValid p
      → p.end ≤ e
      → e ≤ p.size
      → Waits
          (λ q. read_by_state atoi (extend e q) q.state ≡ read_by_state atoi (extend e p) s)
          (read_by_state atoi p s)
  read_by_state-Waits e p read_headers st v lo hi =
      unfold read_by_state in
      header_loop-resume e (suc (p.end - p.processed)) (suc (e - p.processed)) v st lo hi
        (omega arith) (omega arith)
  read_by_state-Waits e p read_content st v lo hi =
      unfold read_by_state in
      Waits-map {P = λ q. q ≡ p} (some (read_contents atoi p))
        (λ q same.
          ap (λ (r : HttpParser). read_by_state atoi (extend e r) r.state) same
          ∙ ap (read_by_state atoi (extend e p)) st)
        (read_contents-Waits p)

  -- A call of `readRequest` on a valid parser that answers that the request is not complete loses nothing:
  -- when more bytes stand behind those that it had, up to `e`, calling it again gives the same answer and
  -- the same parser as one call on all the bytes, where these are fewer than the size limit.
  pub read_request-extend :
      (e : ℕ) (p q : HttpParser)
      → IsValid p
      → p.end ≤ e
      → e ≤ p.size
      → e - p.begin < max_request_size
      → read_request atoi p ≡ some (false, q)
      → read_request atoi (extend e q) ≡ read_request atoi (extend e p)
  read_request-extend e p q v lo hi small answer =
      let (done, r, answer', v', a) = read_request-Answers atoi p v in
      let same : r ≡ q = ap (λ (x : Bool × HttpParser). x.1) (of_some (sym answer' ∙ answer)) in
      let begin_eq : q.begin ≡ p.begin = sym (ap (λ (x : HttpParser). x.begin) same) ∙ a.begin_eq in
      let by_state = sym (read_request_small p (omega arith)) ∙ answer in
      read_request_small (extend e q) (omega (arith, begin_eq))
      ∙ subst
          (Waits (λ x.
            read_by_state atoi (extend e x) x.state ≡ read_by_state atoi (extend e p) p.state))
          by_state (read_by_state-Waits e p p.state refl v lo hi)
      ∙ sym (read_request_small (extend e p) small)
