-- ===== src/Http/Valid.antt =====
-- The invariant of `HTTPParser`, and that every operation keeps it.
use mathlib.Core.Path.{subst}
use cppsp_ng.Base.{
  ℕ, zero, suc, ◌+◌, ◌-◌, ◌*◌, ◌≤◌, ◌<◌, ◌≡◌, refl, inl, inr, false, Option, none, some, List, [],
  ◌∷◌, ltb, leb, of_some, Bool-cases, arith,
}
use cppsp_ng.Base.Bytes.{All}
use cppsp_ng.Base.Memory.{Memory}
use cppsp_ng.Base.Find.{find_byte-cases}
use cppsp_ng.Http.Defs.{
  Header, Range, HttpParser, clear_request, reset, begin_add_data, end_add_data,
}
use cppsp_ng.Http.Read.{find_char, trim_first, trim_last, trim}

abbrev pub InRange : ℕ → Range → Type 0
InRange n none = Unit
InRange n (some (s, e)) = (s ≤ e) × (e ≤ n)

abbrev pub HeaderIn : ℕ → Header → Type 0
HeaderIn n h =
    (h.name_start ≤ h.name_end)
    × (h.name_end ≤ n)
    × (h.value_start ≤ h.value_end)
    × (h.value_end ≤ n)

-- The buffer holds the current request from `begin` on, of which all up to `processed` has been read;
-- every part that has been noted lies in what has been read, and the contents in the buffer.
pub record IsValid (p : HttpParser) : Type 0 where
  pub begin_le : p.begin ≤ p.processed
  pub processed_le : p.processed ≤ p.end
  pub end_le : p.end ≤ p.size
  pub size_pos : 0 < p.size
  pub request_line_in : InRange (p.processed - p.begin) p.request_line
  pub verb_in : InRange (p.processed - p.begin) p.verb
  pub host_in : InRange (p.processed - p.begin) p.host
  pub path_in : InRange (p.processed - p.begin) p.path
  pub headers_in : All (HeaderIn (p.processed - p.begin)) p.headers
  pub contents_in : InRange p.size p.contents

pub InRange-mono : (m n : ℕ) (r : Range) → m ≤ n → InRange m r → InRange n r
InRange-mono m n none le h = tt
InRange-mono m n (some (s, e)) le h = omega arith

pub HeaderIn-mono : (m n : ℕ) (hs : List Header) → m ≤ n → All (HeaderIn m) hs → All (HeaderIn n) hs
HeaderIn-mono m n [] le h = tt
HeaderIn-mono m n (x ∷ hs) le (h, k) = (omega arith, HeaderIn-mono m n hs le k)

pub clear_request-IsValid : {p : HttpParser} → IsValid p → IsValid (clear_request p)
unfolding clear_request
clear_request-IsValid v = record {
  begin_le = omega arith;
  processed_le = v.processed_le;
  end_le = v.end_le;
  size_pos = v.size_pos;
  request_line_in = tt;
  verb_in = tt;
  host_in = tt;
  path_in = tt;
  headers_in = tt;
  contents_in = tt;
}

pub reset-IsValid : (p : HttpParser) → 0 < p.size → IsValid (reset p)
unfolding reset
reset-IsValid p h = record {
  begin_le = omega arith;
  processed_le = omega arith;
  end_le = omega arith;
  size_pos = h;
  request_line_in = tt;
  verb_in = tt;
  host_in = tt;
  path_in = tt;
  headers_in = tt;
  contents_in = tt;
}

-- The same request, moved to the start of a buffer of some size.
module _ {p : HttpParser} (v : IsValid p) where
  moved-IsValid :
      (mem : Memory) (size processed end : ℕ)
      → p.size ≤ size
      → processed ≡ p.processed - p.begin
      → end ≡ p.end - p.begin
      → IsValid
          (record p { buffer = mem; size = size; processed = processed; begin = 0; end = end })
  moved-IsValid mem size processed end le e e' =
      let same : p.processed - p.begin ≤ processed - 0 = omega arith in
      record {
        begin_le = omega arith;
        processed_le = omega (arith, v.processed_le, v.begin_le);
        end_le = omega (arith, v.end_le);
        size_pos = omega (arith, v.size_pos);
        request_line_in = InRange-mono _ _ p.request_line same v.request_line_in;
        verb_in = InRange-mono _ _ p.verb same v.verb_in;
        host_in = InRange-mono _ _ p.host same v.host_in;
        path_in = InRange-mono _ _ p.path same v.path_in;
        headers_in = HeaderIn-mono _ _ p.headers same v.headers_in;
        contents_in = InRange-mono _ _ p.contents le v.contents_in;
      }

  pub begin_add_data-IsValid : (fresh : Memory) → IsValid (begin_add_data fresh p).0
  unfolding begin_add_data
  begin_add_data-IsValid fresh = elim (Bool-cases (leb p.end p.begin)) [
    | inl empty ↦ rw empty (
        moved-IsValid p.buffer p.size 0 0 (omega arith) (ground (arith, v.processed_le))
          (ground arith))
    | inr more ↦ elim (Bool-cases (ltb p.size ((p.end - p.begin) * 2))) [
      | inl large ↦ rw (more, large) (moved-IsValid _ _ _ _ (omega arith) refl refl)
      | inr small ↦ rw (more, small) (moved-IsValid _ _ _ _ (omega arith) refl refl)
    ]
  ]

  pub end_add_data-IsValid : (len : ℕ) {q : HttpParser} → end_add_data len p ≡ some q → IsValid q
  unfolding end_add_data
  end_add_data-IsValid len {q} e = elim (Bool-cases (leb (p.end + len) p.size)) [
    | inl fits ↦ subst IsValid (of_some (rw fits at e)) (grown (ground arith))
    | inr over ↦ absurd (cc (rw over at e))
  ]
    where
      grown : p.end + len ≤ p.size → IsValid (record p { end = p.end + len })
      grown le = record {
        begin_le = v.begin_le;
        processed_le = omega (arith, v.processed_le);
        end_le = le;
        size_pos = v.size_pos;
        request_line_in = v.request_line_in;
        verb_in = v.verb_in;
        host_in = v.host_in;
        path_in = v.path_in;
        headers_in = v.headers_in;
        contents_in = v.contents_in;
      }

-- What a search from `lo` below `last` may find.
abbrev pub FoundIn : ℕ → ℕ → Option ℕ → Type 0
FoundIn lo last none = Unit
FoundIn lo last (some i) = (lo ≤ i) × (i < last)

pub find_char-FoundIn : (mem : Memory) (b e c : ℕ) → FoundIn b e (find_char mem b e c)
unfolding find_char
find_char-FoundIn mem b e c = elim (Bool-cases (ltb e b)) [
  | inl less ↦ rw less tt
  | inr le ↦ elim (find_byte-cases mem c b (e - b)) [
    | inl (no_byte, _) ↦ rw (le, no_byte) tt
    | inr (i, found, at) ↦ rw (le, found) (at.from, omega (arith, at.from, at.before))
  ]
]

pub trim_first-bounds :
    (mem : Memory) (b n : ℕ) → let r = trim_first mem b n in (b ≤ r.0) × (r.0 + r.1 ≡ b + n)
unfolding trim_first
trim_first-bounds mem b zero = omega arith
trim_first-bounds mem b (suc n) = ground (arith, trim_first-bounds mem (suc b) n)

trim_last-le : (mem : Memory) (b n : ℕ) → trim_last mem b n ≤ n
unfolding trim_last
trim_last-le mem b zero = omega arith
trim_last-le mem b (suc n) = ground (arith, trim_last-le mem b n)

-- Trimming narrows a range.
pub trim_bounds :
    (mem : Memory) (s e : ℕ) → s ≤ e → let r = trim mem s e in (s ≤ r.0) × (r.0 ≤ r.1) × (r.1 ≤ e)
unfolding trim
trim_bounds mem s e le =
    let ordered : ltb e s ≡ false = ground arith in
    let first = trim_first-bounds mem s (e - s) in
    let last = trim_last-le mem ((trim_first mem s (e - s)).0) ((trim_first mem s (e - s)).1) in
    rw (trim, ordered) (omega arith)
