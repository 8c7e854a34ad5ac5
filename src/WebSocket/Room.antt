-- ===== src/WebSocket/Room.antt =====
-- `beginAddData` of `WebSocketParser`: it ends, there is always room for more data, and a frame that has
-- come in part is kept.
use cppsp_ng.Base.{
  ℕ, zero, suc, ◌+◌, ◌-◌, ◌*◌, ◌^◌, ◌≤◌, ◌<◌, ◌≡◌, refl, ap, ◌⊎◌, inl, inr, ◌&&◌, ◌||◌, not, some,
  ltb, leb, ◌==◌, if◌then◌else◌, Bool-cases, arith,
}
use cppsp_ng.Base.Memory.{Memory, copy_to_start, copied}
use cppsp_ng.Base.Signed.{twice, int_less, twice_small, int_less_small}
use cppsp_ng.WebSocket.Parser.{WebSocketParser, double_until, upsize, begin_add_data}

-- The data lies in the buffer.
pub record IsPlaced (p : WebSocketParser) : Type 0 where
  pub begin_le : p.begin ≤ p.end
  pub end_le : p.end ≤ p.size
  pub size_pos : 0 < p.size

double_until-some :
    (fuel size m : ℕ)
    → 0 < size
    → size < 2 ^ 31
    → m ≤ 2 ^ 30
    → 0 < fuel
    → m < fuel + size
    → (n : ℕ) × (double_until fuel size m ≡ some n) × (size ≤ n) × (m ≤ n) × (n < 2 ^ 31)
unfolding double_until
double_until-some zero size m pos small low some_fuel h = absurd (omega arith)
double_until-some (suc fuel) size m pos small low some_fuel h = elim (Bool-cases (ltb size m)) [
  | inl t ↦
      let lt : size < m = ground arith in
      let (n, e, a, b, c) =
        double_until-some fuel (size * 2) m (omega arith) (omega arith) low (omega arith)
          (omega arith) in
      rw (int_less_small size m small (omega arith), t, twice_small size small)
        (n, e, omega arith, b, c)
  | inr t ↦
      rw (int_less_small size m small (omega arith), t)
        (size, refl, omega arith, ground arith, small)
]

upsize-some :
    (size m : ℕ)
    → 0 < size
    → size < 2 ^ 30
    → m ≤ 2 ^ 30
    → (n : ℕ) × (upsize size m ≡ some n) × (size * 2 ≤ n) × (m ≤ n) × (n < 2 ^ 31)
unfolding upsize
upsize-some size m pos small low = rw (twice_small size (omega arith)) (
    double_until-some (suc m) (size * 2) m (omega arith) (omega arith) low (omega arith)
      (omega arith))

-- The result of a call: the parser, where the free space begins and how long it is.
pub record Offers (p q : WebSocketParser) (start room : ℕ) : Type 0 where
  pub start_eq : start ≡ q.end
  pub room_eq : start + room ≡ q.size
  pub room_pos : 0 < room
  pub len_eq : q.end - q.begin ≡ p.end - p.begin
  pub kept : (i : ℕ) → i < p.end - p.begin → q.buffer (q.begin + i) ≡ p.buffer (p.begin + i)
  pub fits : (p.end ≤ p.begin) ⊎ (p.frame_size_hint * 2 ≤ q.size)
  pub placed : IsPlaced q
  pub size_lt : q.size < 2 ^ 31

module _ (fresh : Memory) (p : WebSocketParser) (v : IsPlaced p) where
  grown-Offers :
      (size : ℕ)
      → p.size * 2 ≤ size
      → p.frame_size_hint * 2 ≤ size
      → size < 2 ^ 31
      → Offers p
          (record p {
            buffer = copy_to_start fresh p.buffer p.begin (p.end - p.begin);
            size = size;
            begin = 0;
            end = p.end - p.begin;
          })
          (p.end - p.begin)
          (size - (p.end - p.begin))
  grown-Offers size double hint small = record {
    start_eq = refl;
    room_eq = omega (arith, v.end_le, v.size_pos);
    room_pos = omega (arith, v.end_le, v.size_pos);
    len_eq = omega arith;
    kept = copied fresh p.buffer p.begin (p.end - p.begin);
    fits = inr hint;
    placed = record {
      begin_le = omega arith;
      end_le = omega (arith, v.end_le);
      size_pos = omega (arith, v.size_pos);
    };
    size_lt = small;
  }

  moved_kept :
      (i : ℕ)
      → i < p.end - p.begin
      → (if ltb 0 p.begin
            then copy_to_start p.buffer p.buffer p.begin (p.end - p.begin)
            else p.buffer)
          (0 + i)
        ≡ p.buffer (p.begin + i)
  moved_kept i lt = elim (Bool-cases (ltb 0 p.begin)) [
    | inl t ↦ rw t (copied p.buffer p.buffer p.begin (p.end - p.begin) i lt)
    | inr t ↦ rw t (ap p.buffer (ground arith))
  ]

  stayed-Offers :
      (p.end - p.begin) * 2 ≤ p.size
      → p.frame_size_hint * 2 ≤ p.size
      → p.size < 2 ^ 31
      → Offers p
          (record p {
            buffer =
                if ltb 0 p.begin
                then copy_to_start p.buffer p.buffer p.begin (p.end - p.begin)
                else p.buffer;
            begin = 0;
            end = p.end - p.begin;
          })
          (p.end - p.begin)
          (p.size - (p.end - p.begin))
  stayed-Offers half hint small = record {
    start_eq = refl;
    room_eq = omega (arith, half);
    room_pos = omega (arith, half, v.size_pos);
    len_eq = omega arith;
    kept = moved_kept;
    fits = inr hint;
    placed = record { begin_le = omega arith; end_le = omega (arith, half); size_pos = v.size_pos };
    size_lt = small;
  }

-- The test in `beginAddData`, where nothing wraps around.
wants_more-small :
    (p : WebSocketParser)
    → IsPlaced p
    → p.size < 2 ^ 30
    → p.frame_size_hint ≤ 2 ^ 29
    → (int_less p.size (twice (p.end - p.begin))
        || (not (p.frame_size_hint == 0) && int_less p.size (twice p.frame_size_hint)))
      ≡ (ltb p.size ((p.end - p.begin) * 2)
          || (not (p.frame_size_hint == 0) && ltb p.size (p.frame_size_hint * 2)))
wants_more-small p v small low =
    let cur : p.end - p.begin < 2 ^ 30 = omega (arith, v.end_le) in
    rw
      (
        twice_small (p.end - p.begin) (omega arith),
        twice_small p.frame_size_hint (omega arith),
        int_less_small p.size ((p.end - p.begin) * 2) (omega arith) (omega arith),
        int_less_small p.size (p.frame_size_hint * 2) (omega arith) (omega arith),
      )
      refl

-- `beginAddData` on a parser whose data lies in its buffer, of less than 2^30 bytes, with `currFrameSizeHint` at most 2^29: it ends,
-- also where it looks for a larger size, and the size stays below 2^31, so that no doubling wraps around. It
-- gives at least one free byte, which lies right behind the data and ends with the buffer, keeps the bytes of
-- the frame that has come in part, and leaves the data in the buffer. Unless there are none, the buffer is
-- then at least twice as large as `currFrameSizeHint`.
pub begin_add_data-Offers :
    (fresh : Memory) (p : WebSocketParser)
    → IsPlaced p
    → p.size < 2 ^ 30
    → p.frame_size_hint ≤ 2 ^ 29
    → (q : WebSocketParser) × (start : ℕ) × (room : ℕ) × (begin_add_data fresh p
        ≡ some (q, start, room))
      × Offers p q start room
unfolding begin_add_data
begin_add_data-Offers fresh p v small low = elim (Bool-cases (leb p.end p.begin)) [
  | inl empty ↦ rw empty (
    _,
    _,
    _,
    refl,
    record {
      start_eq = refl;
      room_eq = omega arith;
      room_pos = v.size_pos;
      len_eq = ground arith;
      kept = λ i lt. ground arith;
      fits = inl (ground arith);
      placed = record { begin_le = omega arith; end_le = omega arith; size_pos = v.size_pos };
      size_lt = omega arith;
    },
  )
  | inr more ↦
      elim (Bool-cases (
        ltb p.size ((p.end - p.begin) * 2)
        || (not (p.frame_size_hint == 0) && ltb p.size (p.frame_size_hint * 2)))) [
          | inl large ↦
              let (n, e, a, b, c) =
                upsize-some p.size (p.frame_size_hint * 2) v.size_pos small (omega arith) in
              let same = wants_more-small p v small low in
              rw (more, same, large, twice_small p.frame_size_hint (omega arith), e)
                (_, _, _, refl, grown-Offers fresh p v n a b c)
          | inr fits ↦
              let same = wants_more-small p v small low in
              rw (more, same, fits)
                (_, _, _, refl, stayed-Offers fresh p v (ground arith) (ground arith) (omega arith))
        ]
]
