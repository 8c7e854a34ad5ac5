-- ===== src/Http/Later.antt =====
-- A request that comes in pieces, the later bytes being placed in the buffer behind the first call.
use cppsp_ng.Base.{
  ℕ, zero, suc, ◌+◌, ◌-◌, ◌≤◌, ◌<◌, ◌≡◌, refl, sym, ap, ◌∙◌, inl, inr, Bool, false, ◌||◌, Option,
  none, some, length, leb, ◌==◌, Bool-cases, of_some, arith,
}
use cppsp_ng.Base.Int.{ℤ, pos, pos_part, ltb_ℤ}
use cppsp_ng.Base.Bytes.{Bytes, codes}
use cppsp_ng.Base.Memory.{fill}
use cppsp_ng.Base.Find.{find_line_end-cases}
use cppsp_ng.Base.Below.{fill-Below, find_line_end-Below}
use cppsp_ng.Http.Text.{ci_equals}
use cppsp_ng.Http.Defs.{
  State, read_headers, read_content, Range, HttpParser, max_request_size, part,
}
use cppsp_ng.Http.Read.{
  read_contents, is_none, is_zero, end_of_headers, header_loop, read_by_state, read_request,
}
use cppsp_ng.Http.Valid.{InRange, IsValid}
use cppsp_ng.Http.Preserve.{next_line, next_line-IsValid, read_request-Answers}
use cppsp_ng.Http.Place.{place, slice-Below, add_header-place}
use cppsp_ng.Http.Resume.{loop_stop, loop_blank, loop_line, read_request-extend}

-- What `readCB` does with received bytes: they are placed behind the data, and `endAddData` counts them.
abbrev pub arrive : Bytes → HttpParser → HttpParser
arrive bytes p = record p { buffer = fill p.buffer p.end bytes; end = p.end + length bytes }

module _ (e : ℕ) (bytes : Bytes) where
  -- An answer, with the bytes placed in its parser.
  abbrev place_answer : Bool × HttpParser → Bool × HttpParser
  place_answer (done, q) = (done, place e bytes q)

  abbrev place_in : Option (Bool × HttpParser) → Option (Bool × HttpParser)
  place_in none = none
  place_in (some a) = some (place_answer a)

  part-place :
      (p : HttpParser) (r : Range) (n : ℕ)
      → InRange n r
      → p.begin + n ≤ e
      → part (place e bytes p) r ≡ part p r
  unfolding part
  part-place p none n h le = refl
  part-place p (some (s, t)) n h le =
      slice-Below e (place e bytes p).buffer p.buffer (fill-Below p.buffer e bytes) (p.begin + s)
        (p.begin + t) (omega arith)

  place-IsValid : {p : HttpParser} → IsValid p → IsValid (place e bytes p)
  place-IsValid v = record {
    begin_le = v.begin_le;
    processed_le = v.processed_le;
    end_le = v.end_le;
    size_pos = v.size_pos;
    request_line_in = v.request_line_in;
    verb_in = v.verb_in;
    host_in = v.host_in;
    path_in = v.path_in;
    headers_in = v.headers_in;
    contents_in = v.contents_in;
  }

  module _ (atoi : Bytes → ℤ) where
    read_contents-place :
        (p : HttpParser)
        → read_contents atoi (place e bytes p) ≡ place_answer (read_contents atoi p)
    unfolding read_contents
    read_contents-place p =
        elim (Bool-cases
          (ltb_ℤ p.content_length (pos 0) || ltb_ℤ (pos max_request_size) p.content_length)) [
            | inl bad ↦ rw bad refl
            | inr good ↦ elim (Bool-cases (leb (pos_part p.content_length) (p.end - p.processed))) [
              | inl all ↦ rw (good, all) refl
              | inr left ↦ rw (good, left) refl
            ]
          ]

    end_of_headers-place :
        (p : HttpParser) (n : ℕ)
        → InRange n p.verb
        → p.begin + n ≤ e
        → end_of_headers atoi (place e bytes p) ≡ place_answer (end_of_headers atoi p)
    unfolding end_of_headers
    end_of_headers-place p n verb le = elim (Bool-cases (is_none p.request_line)) [
      | inl no_line ↦ rw no_line refl
      | inr line ↦
          let view = part-place p p.verb n verb le in
          elim (Bool-cases (ci_equals (part p p.verb) (codes "get") || is_zero p.content_length)) [
            | inl no_body ↦ rw (line, view, no_body) refl
            | inr body ↦
                rw (line, view, body) (read_contents-place (record p { state = read_content }))
          ]
    ]

    next_line-place :
        (p : HttpParser) (index : ℕ)
        → index < e
        → next_line atoi (place e bytes p) index ≡ place e bytes (next_line atoi p index)
    next_line-place p index lt =
        ap (λ (q : HttpParser). record q { processed = index + 2 })
          (add_header-place e bytes atoi p p.processed index lt)

    header_loop-place :
        (fuel : ℕ) {p : HttpParser}
        → IsValid p
        → p.end ≤ e
        → header_loop atoi fuel (place e bytes p) ≡ place_in (header_loop atoi fuel p)
    header_loop-place zero v le = unfold header_loop in refl
    header_loop-place (suc fuel) {p} v le =
        let same =
          find_line_end-Below e (place e bytes p).buffer p.buffer (fill-Below p.buffer e bytes)
            p.processed (p.end - p.processed) (omega (arith, v.processed_le)) in
        elim (find_line_end-cases p.buffer p.processed (p.end - p.processed)) [
          | inl (none_found, _) ↦
              loop_stop atoi fuel (place e bytes p) (same ∙ none_found)
              ∙ sym (ap place_in (loop_stop atoi fuel p none_found))
          | inr (index, found, at) ↦
              let more : p.processed < p.end = omega (arith, at.before, at.from) in
              elim (Bool-cases (p.processed == index)) [
                | inl t ↦
                    let here : p.processed ≡ index = ground arith in
                    loop_blank atoi fuel (place e bytes p) index (same ∙ found) more here
                    ∙ ap some (
                        end_of_headers-place (record p { processed = index + 2 })
                          (p.processed - p.begin) v.verb_in
                          (omega (arith, v.begin_le, v.processed_le)))
                    ∙ sym (ap place_in (loop_blank atoi fuel p index found more here))
                | inr t ↦
                    let (v', a) =
                      next_line-IsValid atoi index v at.from (omega (arith, at.before, at.from)) in
                    loop_line atoi fuel (place e bytes p) index (same ∙ found) more t
                    ∙ ap (header_loop atoi fuel)
                        (next_line-place p index (omega (arith, at.before, at.from)))
                    ∙ header_loop-place fuel v' (omega (arith, a.end_eq))
                    ∙ sym (ap place_in (loop_line atoi fuel p index found more t))
              ]
        ]

    read_by_state-place :
        (p : HttpParser) (s : State)
        → IsValid p
        → p.end ≤ e
        → read_by_state atoi (place e bytes p) s ≡ place_in (read_by_state atoi p s)
    unfolding read_by_state
    read_by_state-place p read_headers v le = header_loop-place (suc (p.end - p.processed)) v le
    read_by_state-place p read_content v le = ap some (read_contents-place p)

    read_request-place :
        (p : HttpParser)
        → IsValid p
        → p.end ≤ e
        → read_request atoi (place e bytes p) ≡ place_in (read_request atoi p)
    unfolding read_request
    read_request-place p v le = elim (Bool-cases (leb max_request_size (p.end - p.begin))) [
      | inl large ↦ rw large refl
      | inr small ↦ rw small (read_by_state-place p p.state v le)
    ]

-- A call of `readRequest` on a valid parser that answers that the request is not complete loses nothing: when more bytes
-- are then placed behind the data, calling it again gives the same answer and the same parser as one call after
-- all the bytes have come, where these fit into the buffer and are fewer than the size limit.
pub read_request-arrive :
    (atoi : Bytes → ℤ) (bytes : Bytes) (p q : HttpParser)
    → IsValid p
    → p.end + length bytes ≤ p.size
    → p.end + length bytes - p.begin < max_request_size
    → read_request atoi p ≡ some (false, q)
    → read_request atoi (arrive bytes q) ≡ read_request atoi (arrive bytes p)
read_request-arrive atoi bytes p q v fits small answer =
    let (done, r, answer', v', a) = read_request-Answers atoi p v in
    let same : r ≡ q = ap (λ (x : Bool × HttpParser). x.1) (of_some (sym answer' ∙ answer)) in
    let end_eq : q.end ≡ p.end = sym (ap (λ (x : HttpParser). x.end) same) ∙ a.end_eq in
    let first = read_request-place p.end bytes atoi p v (omega arith) in
    ap
      (λ (n : ℕ).
        read_request atoi (record q { buffer = fill q.buffer n bytes; end = n + length bytes }))
      end_eq
    ∙ read_request-extend atoi (p.end + length bytes) (place p.end bytes p) (place p.end bytes q)
        (place-IsValid p.end bytes v) (omega arith) fits small
        (first ∙ ap (place_in p.end bytes) answer)
