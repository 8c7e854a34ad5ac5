-- ===== src/Http/Extend.antt =====
-- More data behind what the parser has: its steps on the lines that were there already are the same.
use cppsp_ng.Base.{
  ℕ, zero, suc, ◌≤◌, ◌≡◌, refl, ap, ◌∙◌, inl, inr, Option, none, some, Bool-cases, arith,
}
use cppsp_ng.Base.Int.{ℤ}
use cppsp_ng.Base.Bytes.{Bytes, codes}
use cppsp_ng.Base.Memory.{Memory, find_line_end}
use cppsp_ng.Http.Text.{ci_equals}
use cppsp_ng.Http.Defs.{Header, Range, HttpParser, slice}
use cppsp_ng.Http.Read.{
  add_path, add_verb, add_request_line, note_content_length, note_host, push_header, header_at,
  add_field, add_line, add_header,
}

pub find_line_end-extend :
    (mem : Memory) (b n n' i : ℕ)
    → n ≤ n'
    → find_line_end mem b n ≡ some i
    → find_line_end mem b n' ≡ some i
unfolding find_line_end
find_line_end-extend mem b zero n' i le e = absurd (cc)
find_line_end-extend mem b (suc n) zero i le e = absurd (omega arith)
find_line_end-extend mem b (suc zero) (suc n') i le e = absurd (cc)
find_line_end-extend mem b (suc (suc n)) (suc n') i le e =
    ground (arith, find_line_end-extend mem (suc b) (suc n) n' i)

module _ (e : ℕ) where
  -- `endAddData` after the bytes up to `e` have been placed.
  abbrev pub extend : HttpParser → HttpParser
  extend p = record p { end = e }

  add_path-extend :
      (p : HttpParser) (index : ℕ) (o : Option ℕ)
      → add_path (extend p) index o ≡ extend (add_path p index o)
  unfolding add_path
  add_path-extend p index none = refl
  add_path-extend p index (some i) = refl

  add_verb-extend :
      (p : HttpParser) (begin last : ℕ) (o : Option ℕ)
      → add_verb (extend p) begin last o ≡ extend (add_verb p begin last o)
  unfolding add_verb
  add_verb-extend p begin last none = refl
  add_verb-extend p begin last (some i) = add_path-extend _ i _

  note_host-extend : (p : HttpParser) (h : Header) → note_host (extend p) h ≡ extend (note_host p h)
  unfolding note_host
  note_host-extend p h =
      elim (Bool-cases (ci_equals (slice p.buffer h.name_start h.name_end) (codes "host"))) [
        | inl t ↦ rw t
        | inr t ↦ rw t
      ]

  push_header-extend :
      (p : HttpParser) (h : Header) → push_header (extend p) h ≡ extend (push_header p h)
  unfolding push_header
  push_header-extend p h = refl

  module _ (atoi : Bytes → ℤ) where
    note_content_length-extend :
        (p : HttpParser) (h : Header)
        → note_content_length atoi (extend p) h ≡ extend (note_content_length atoi p h)
    unfolding note_content_length
    note_content_length-extend p h =
        elim (Bool-cases
          (ci_equals (slice p.buffer h.name_start h.name_end) (codes "content-length"))) [
            | inl t ↦ rw t
            | inr t ↦ rw t
          ]

    add_field-extend :
        (p : HttpParser) (begin last : ℕ) (o : Option ℕ)
        → add_field atoi (extend p) begin last o ≡ extend (add_field atoi p begin last o)
    unfolding add_field push_header
    add_field-extend p begin last none = refl
    add_field-extend p begin last (some i) =
        let h = header_at p.buffer begin last i in
        ap (λ q. push_header (note_host q h) h) (note_content_length-extend p h)
        ∙ ap (λ q. push_header q h) (note_host-extend (note_content_length atoi p h) h)

    add_line-extend :
        (p : HttpParser) (begin last : ℕ) (o : Range)
        → add_line atoi (extend p) begin last o ≡ extend (add_line atoi p begin last o)
    unfolding add_line add_request_line
    add_line-extend p begin last none = add_verb-extend _ begin last _
    add_line-extend p begin last (some r) = add_field-extend p begin last _

    pub add_header-extend :
        (p : HttpParser) (begin last : ℕ)
        → add_header atoi (extend p) begin last ≡ extend (add_header atoi p begin last)
    unfolding add_header
    add_header-extend p begin last = add_line-extend p begin last p.request_line
