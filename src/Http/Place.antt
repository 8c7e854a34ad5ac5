-- ===== src/Http/Place.antt =====
-- Bytes that are placed behind the data: the steps on the lines before them are the same.
use cppsp_ng.Base.{
  ℕ, zero, suc, ◌+◌, ◌-◌, ◌≤◌, ◌<◌, ◌≡◌, refl, ap, ◌∙◌, inl, inr, false, Option, none, some, ltb,
  leb, Bool-cases, arith,
}
use cppsp_ng.Base.Int.{ℤ}
use cppsp_ng.Base.Bytes.{Bytes, codes}
use cppsp_ng.Base.Memory.{Memory, poke, fill}
use cppsp_ng.Base.Find.{span-eq}
use cppsp_ng.Base.Below.{Below, fill-Below, fill-poke, find_byte-Below, c_string-Below}
use cppsp_ng.Http.Text.{ci_equals}
use cppsp_ng.Http.Defs.{Header, Range, HttpParser, slice}
use cppsp_ng.Http.Read.{
  find_char, trim_first, trim_last, trim, add_path, add_verb, add_request_line, note_content_length,
  note_host, push_header, header_at, add_field, add_line, add_header,
}
use cppsp_ng.Http.Valid.{FoundIn, find_char-FoundIn, trim_first-bounds}
use cppsp_ng.Http.Line.{header_at-Placed}

module _ (e : ℕ) (mem' mem : Memory) (same : Below e mem' mem) where
  find_char-Below : (b last c : ℕ) → last ≤ e → find_char mem' b last c ≡ find_char mem b last c
  unfolding find_char
  find_char-Below b last c le = elim (Bool-cases (ltb last b)) [
    | inl t ↦ rw t refl
    | inr t ↦
        let fits : b + (last - b) ≤ e = ground arith in
        rw (t, find_byte-Below e mem' mem same c b (last - b) fits) refl
  ]

  trim_first-Below : (b n : ℕ) → b + n ≤ e → trim_first mem' b n ≡ trim_first mem b n
  unfolding trim_first
  trim_first-Below b zero le = refl
  trim_first-Below b (suc n) le =
      rw (same b (omega arith), trim_first-Below (suc b) n (omega arith)) refl

  trim_last-Below : (b n : ℕ) → b + n ≤ e → trim_last mem' b n ≡ trim_last mem b n
  unfolding trim_last
  trim_last-Below b zero le = refl
  trim_last-Below b (suc n) le =
      rw (same (b + n) (omega arith), trim_last-Below b n (omega arith)) refl

  trim-Below : (s t : ℕ) → s ≤ t → t ≤ e → trim mem' s t ≡ trim mem s t
  unfolding trim
  trim-Below s t le fits =
      let ordered : ltb t s ≡ false = ground arith in
      let bounds = trim_first-bounds mem s (t - s) in
      let r = trim_first mem s (t - s) in
      rw
        (
          trim,
          ordered,
          trim_first-Below s (t - s) (omega arith),
          trim_last-Below r.0 r.1 (omega (arith, bounds)),
        )
        refl

  pub slice-Below : (s t : ℕ) → t ≤ e → slice mem' s t ≡ slice mem s t
  unfolding slice
  slice-Below s t le = elim (Bool-cases (leb t s)) [
    | inl h ↦ rw h refl
    | inr h ↦
        let fits : s + (t - s) ≤ e = ground arith in
        rw h (span-eq mem' mem s s (t - s) (λ i lt. same (s + i) (omega arith)))
  ]

  header_at-Below :
      (begin last index : ℕ)
      → begin ≤ index
      → index < last
      → last ≤ e
      → header_at mem' begin last index ≡ header_at mem begin last index
  unfolding header_at
  header_at-Below begin last index lo hi le =
      rw
        (
          trim-Below begin index lo (omega arith),
          trim-Below (index + 1) last (omega arith) (omega arith),
        )
        refl

module _ (e : ℕ) (bytes : Bytes) where
  -- The bytes stand behind the data, which ends at `e`.
  abbrev pub place : HttpParser → HttpParser
  place p = record p { buffer = fill p.buffer e bytes }

  placed : (p : HttpParser) → Below e (place p).buffer p.buffer
  placed p = fill-Below p.buffer e bytes

  add_path-place :
      (p : HttpParser) (index : ℕ) (o : Option ℕ)
      → add_path (place p) index o ≡ place (add_path p index o)
  unfolding add_path
  add_path-place p index none = refl
  add_path-place p index (some i) = refl

  add_verb-place :
      (p : HttpParser) (begin last : ℕ) (o : Option ℕ)
      → last ≤ e
      → add_verb (place p) begin last o ≡ place (add_verb p begin last o)
  unfolding add_verb
  add_verb-place p begin last none le = refl
  add_verb-place p begin last (some i) le =
      let q = record p { verb = some (begin - p.begin, i - p.begin) } in
      ap (add_path (place q) i)
        (find_char-Below e (place p).buffer p.buffer (placed p) (i + 1) last 32 le)
      ∙ add_path-place q i (find_char p.buffer (i + 1) last 32)

  note_host-place :
      (p : HttpParser) (h : Header) → h.name_end ≤ e → note_host (place p) h ≡ place (note_host p h)
  unfolding note_host
  note_host-place p h le =
      let s = slice-Below e (place p).buffer p.buffer (placed p) h.name_start h.name_end le in
      elim (Bool-cases (ci_equals (slice p.buffer h.name_start h.name_end) (codes "host"))) [
        | inl t ↦ rw (s, t) refl
        | inr t ↦ rw (s, t) refl
      ]

  module _ (atoi : Bytes → ℤ) where
    note_content_length-place :
        (p : HttpParser) (h : Header)
        → h.name_end ≤ e
        → h.value_start ≤ h.value_end
        → h.value_end < e
        → note_content_length atoi (place p) h ≡ place (note_content_length atoi p h)
    unfolding note_content_length
    note_content_length-place p h le ordered lt =
        let s = slice-Below e (place p).buffer p.buffer (placed p) h.name_start h.name_end le in
        let cut = poke p.buffer h.value_end 0 in
        let pokes = fill-poke p.buffer e bytes h.value_end 0 lt in
        let text =
          c_string-Below e (fill cut e bytes) cut (fill-Below cut e bytes) h.value_start
            (h.value_end - h.value_start) (omega arith) in
        elim (Bool-cases
          (ci_equals (slice p.buffer h.name_start h.name_end) (codes "content-length"))) [
            | inl t ↦ rw (s, t, ← pokes, text) refl
            | inr t ↦ rw (s, t) refl
          ]

    add_field-place :
        (p : HttpParser) (begin last : ℕ) (o : Option ℕ)
        → FoundIn begin last o
        → last < e
        → add_field atoi (place p) begin last o ≡ place (add_field atoi p begin last o)
    unfolding add_field push_header
    add_field-place p begin last none found lt = refl
    add_field-place p begin last (some i) (lo, hi) lt =
        let h = header_at p.buffer begin last i in
        let at =
          header_at-Below e (place p).buffer p.buffer (placed p) begin last i lo hi (omega arith) in
        let b = header_at-Placed atoi p.buffer begin last i lo hi in
        ap (λ (g : Header). push_header (note_host (note_content_length atoi (place p) g) g) g) at
        ∙ ap (λ (q : HttpParser). push_header (note_host q h) h)
            (note_content_length-place p h (omega (arith, b.name_hi)) b.value_le
              (omega (arith, b.value_hi)))
        ∙ ap (λ (q : HttpParser). push_header q h)
            (note_host-place (note_content_length atoi p h) h (omega (arith, b.name_hi)))

    add_line-place :
        (p : HttpParser) (begin last : ℕ) (o : Range)
        → last < e
        → add_line atoi (place p) begin last o ≡ place (add_line atoi p begin last o)
    unfolding add_line add_request_line
    add_line-place p begin last none lt =
        let q = record p { request_line = some (begin - p.begin, last - p.begin) } in
        ap (add_verb (place q) begin last)
          (find_char-Below e (place p).buffer p.buffer (placed p) begin last 32 (omega arith))
        ∙ add_verb-place q begin last (find_char p.buffer begin last 32) (omega arith)
    add_line-place p begin last (some r) lt =
        ap (add_field atoi (place p) begin last)
          (find_char-Below e (place p).buffer p.buffer (placed p) begin last b':' (omega arith))
        ∙ add_field-place p begin last (find_char p.buffer begin last b':')
            (find_char-FoundIn p.buffer begin last b':') lt

    pub add_header-place :
        (p : HttpParser) (begin last : ℕ)
        → last < e
        → add_header atoi (place p) begin last ≡ place (add_header atoi p begin last)
    unfolding add_header
    add_header-place p begin last = add_line-place p begin last p.request_line
