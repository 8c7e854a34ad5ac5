-- ===== src/Http/Room.antt =====
-- `beginAddData`: there is always room for more data, and the request that is being read is kept.
use mathlib.Core.List.{map}
use mathlib.Core.Path.{ap₂}
use native.Mathlib.Nat.{add_assoc}
use cppsp_ng.Base.{
  ℕ, ◌+◌, ◌-◌, ◌*◌, ◌≤◌, ◌<◌, ◌≡◌, refl, sym, ap, ◌∙◌, ◌⊎◌, inl, inr, none, some, List, [], ◌∷◌,
  ltb, leb, if◌then◌else◌, Bool-cases, arith,
}
use cppsp_ng.Base.Bytes.{Bytes, All}
use cppsp_ng.Base.Memory.{copied, Memory, span, copy_to_start}
use cppsp_ng.Base.Find.{span-eq}
use cppsp_ng.Http.Defs.{
  Header, Range, HttpParser, max_request_size, begin_add_data, slice, part, header_view,
}
use cppsp_ng.Http.Valid.{IsValid, InRange, HeaderIn}

-- The bytes of the request that is being read are the same, at the places relative to its start.
abbrev pub SameRequest : HttpParser → HttpParser → Type 0
SameRequest p q =
    (q.end - q.begin ≡ p.end - p.begin)
    × (q.processed - q.begin ≡ p.processed - p.begin)
    × ((i : ℕ) → i < p.end - p.begin → q.buffer (q.begin + i) ≡ p.buffer (p.begin + i))

-- The sizes that a buffer can have: it begins with 4096 bytes and is doubled at most twice.
abbrev pub IsSize : ℕ → Type 0
IsSize n = (n ≡ 4096) ⊎ (n ≡ 8192) ⊎ (n ≡ 16384)

-- The result of a call: where the free space begins and how long it is.
abbrev pub HasRoom : HttpParser → HttpParser × ℕ × ℕ → Type 0
HasRoom p (q, start, room) =
    (start ≡ q.end) × (start + room ≡ q.size) × (0 < room) × SameRequest p q

module _ (fresh : Memory) {p : HttpParser} (v : IsValid p) where
  pub begin_add_data-HasRoom : HasRoom p (begin_add_data fresh p)
  unfolding begin_add_data
  begin_add_data-HasRoom = elim (Bool-cases (leb p.end p.begin)) [
    | inl empty ↦
        let le : p.end ≤ p.begin = ground arith in
        rw empty (
          refl,
          omega arith,
          v.size_pos,
          (
            omega (arith, le),
            omega (arith, le, v.processed_le),
            λ i lt. absurd (omega (arith, le)),
          ),
        )
    | inr more ↦ elim (Bool-cases (ltb p.size ((p.end - p.begin) * 2))) [
      | inl large ↦
          rw (more, large)
            (
              refl,
              omega (arith, v.end_le, v.size_pos),
              omega (arith, v.end_le, v.size_pos),
              (omega arith, omega arith, copied fresh p.buffer p.begin (p.end - p.begin)),
            )
      | inr small ↦
          let half : (p.end - p.begin) * 2 ≤ p.size = ground arith in
          rw (more, small)
            (
              refl,
              omega (arith, half),
              omega (arith, half, v.size_pos),
              (omega arith, omega arith, kept),
            )
    ]
  ]
    where
      kept :
          (i : ℕ)
          → i < p.end - p.begin
          → (if ltb 0 p.begin
                then copy_to_start p.buffer p.buffer p.begin (p.end - p.begin)
                else p.buffer)
              (0 + i)
            ≡ p.buffer (p.begin + i)
      kept i lt = elim (Bool-cases (ltb 0 p.begin)) [
        | inl away ↦ rw away (copied p.buffer p.buffer p.begin (p.end - p.begin) i lt)
        | inr at_start ↦
            rw at_start (ap p.buffer (let e : p.begin ≡ 0 = ground arith in omega (arith, e)))
      ]

  -- As long as the request is below the size limit the buffer has one of three sizes.
  pub begin_add_data-IsSize :
      p.end - p.begin < max_request_size → IsSize p.size → IsSize ((begin_add_data fresh p).0.size)
  unfolding begin_add_data
  begin_add_data-IsSize h s = elim (Bool-cases (leb p.end p.begin)) [
    | inl empty ↦ rw empty s
    | inr more ↦ elim (Bool-cases (ltb p.size ((p.end - p.begin) * 2))) [
      | inl large ↦
          let full : p.size < (p.end - p.begin) * 2 = ground arith in
          rw (more, large) (doubled full s)
      | inr small ↦ rw (more, small) s
    ]
  ]
    where
      doubled : p.size < (p.end - p.begin) * 2 → IsSize p.size → IsSize (p.size * 2)
      doubled full (inl e) = inr (inl (omega arith))
      doubled full (inr (inl e)) = inr (inr (omega arith))
      doubled full (inr (inr e)) = absurd (omega arith)

-- `beginAddData` on a valid parser gives at least one free byte, which lies right behind the data and
-- ends with the buffer; it keeps every byte of the request that is being read and how much of it has been
-- read; and from one of the sizes 4096, 8192 and 16384 the buffer comes to one of these, if the request
-- is below the size limit.
pub begin_add_data_lem :
    (fresh : Memory) (p : HttpParser)
    → IsValid p
    → p.end - p.begin < max_request_size
    → IsSize p.size
    → HasRoom p (begin_add_data fresh p) × IsSize ((begin_add_data fresh p).0.size)
begin_add_data_lem fresh p v h s =
    (begin_add_data-HasRoom fresh v, begin_add_data-IsSize fresh v h s)

slice-span :
    (mem : Memory) (b s e : ℕ) → s ≤ e → slice mem (b + s) (b + e) ≡ span mem (b + s) (e - s)
unfolding slice
slice-span mem b s e le = elim (Bool-cases (leb (b + e) (b + s))) [
  | inl empty ↦ let n : e - s ≡ 0 = ground arith in rw (empty, n)
  | inr full ↦ rw full (ap (span mem (b + s)) (omega arith))
]

-- A part of the request shows the same bytes after the move.
part-SameRequest :
    (p q : HttpParser) (r : Range) (n : ℕ)
    → SameRequest p q
    → n ≤ p.end - p.begin
    → InRange n r
    → part q r ≡ part p r
unfolding part
part-SameRequest p q none n same le h = refl
part-SameRequest p q (some (s, e)) n same le (h, k) =
    slice-span q.buffer q.begin s e h
    ∙ span-eq q.buffer p.buffer (q.begin + s) (p.begin + s) (e - s) (λ i lt.
      ap q.buffer (add_assoc q.begin s i)
      ∙ same.2 (s + i) (omega arith)
      ∙ sym (ap p.buffer (add_assoc p.begin s i)))
    ∙ sym (slice-span p.buffer p.begin s e h)

header_views-SameRequest :
    (p q : HttpParser) (hs : List Header) (n : ℕ)
    → SameRequest p q
    → n ≤ p.end - p.begin
    → All (HeaderIn n) hs
    → map (header_view q) hs ≡ map (header_view p) hs
header_views-SameRequest p q [] n same le k = refl
header_views-SameRequest p q (h ∷ hs) n same le ((a, b, c, d), k) =
    ap₂ (λ (x : Bytes × Bytes) (xs : List (Bytes × Bytes)). x ∷ xs)
      (unfold header_view in
        ap₂ (λ (x y : Bytes). (x, y))
          (part-SameRequest p q (some (h.name_start, h.name_end)) n same le (a, b))
          (part-SameRequest p q (some (h.value_start, h.value_end)) n same le (c, d)))
      (header_views-SameRequest p q hs n same le k)

begin_add_data-parts :
    (fresh : Memory) (p : HttpParser)
    → let q = (begin_add_data fresh p).0 in
      (q.verb ≡ p.verb) × (q.path ≡ p.path) × (q.host ≡ p.host) × (q.headers ≡ p.headers)
unfolding begin_add_data
begin_add_data-parts fresh p = elim (Bool-cases (leb p.end p.begin)) [
  | inl empty ↦ rw empty (refl, refl, refl, refl)
  | inr more ↦ elim (Bool-cases (ltb p.size ((p.end - p.begin) * 2))) [
    | inl large ↦ rw (more, large) (refl, refl, refl, refl)
    | inr small ↦ rw (more, small) (refl, refl, refl, refl)
  ]
]

-- What has been read of a request before `beginAddData` moves it is shown unchanged after: its verb, its
-- path, its host and the names and values of its headers.
pub begin_add_data-views :
    (fresh : Memory) (p : HttpParser)
    → IsValid p
    → let q = (begin_add_data fresh p).0 in
      (part q q.verb ≡ part p p.verb)
      × (part q q.path ≡ part p p.path)
      × (part q q.host ≡ part p p.host)
      × (map (header_view q) q.headers ≡ map (header_view p) p.headers)
begin_add_data-views fresh p v =
    let q = (begin_add_data fresh p).0 in
    let same = (begin_add_data-HasRoom fresh v).3 in
    let n = p.processed - p.begin in
    let le : n ≤ p.end - p.begin = omega (arith, v.processed_le) in
    let (verb, path, host, headers) = begin_add_data-parts fresh p in
    (
      ap (part q) verb ∙ part-SameRequest p q p.verb n same le v.verb_in,
      ap (part q) path ∙ part-SameRequest p q p.path n same le v.path_in,
      ap (part q) host ∙ part-SameRequest p q p.host n same le v.host_in,
      ap (map (header_view q)) headers
          ∙ header_views-SameRequest p q p.headers n same le v.headers_in,
    )
