-- ===== src/WebSocket/Words.antt =====
-- Words in memory on a little-endian machine, the byte order functions of the C library there, and
-- `htonll` of websocket.C.
use cppsp_ng.Base.{ℕ, ◌+◌, ◌*◌, ◌/◌, ◌%◌, ◌^◌, ◌<◌, ◌≡◌, refl, ◌∙◌, cons-eq, [], ◌∷◌, arith}
use cppsp_ng.Base.Bytes.{Bytes}
use cppsp_ng.Base.Memory.{Memory, span}

-- `htons` and `ntohs`, `htonl`: the bytes in the other order.
unfoldable pub swap16 : ℕ → ℕ
swap16 x = x % 256 * 256 + x / 256 % 256

unfoldable pub swap32 : ℕ → ℕ
swap32 x = x % 256 * 2 ^ 24 + x / 2 ^ 8 % 256 * 2 ^ 16 + x / 2 ^ 16 % 256 * 2 ^ 8 + x / 2 ^ 24 % 256

-- The branch of `htonll` for a little-endian machine.
unfoldable pub htonll : ℕ → ℕ
unfolding swap32
htonll value =
    let high_part = swap32 (value / 2 ^ 32 % 2 ^ 32) in
    let low_part = swap32 (value % 2 ^ 32) in low_part * 2 ^ 32 + high_part

-- Storing a word, lowest byte first, and loading it.
unfoldable pub store16 : ℕ → Bytes
store16 x = x % 256 ∷ x / 256 % 256 ∷ []

unfoldable pub store64 : ℕ → Bytes
store64 x =
    x % 256
    ∷ x / 2 ^ 8 % 256
    ∷ x / 2 ^ 16 % 256
    ∷ x / 2 ^ 24 % 256
    ∷ x / 2 ^ 32 % 256
    ∷ x / 2 ^ 40 % 256
    ∷ x / 2 ^ 48 % 256
    ∷ x / 2 ^ 56 % 256
    ∷ []

unfoldable pub little_endian : Bytes → ℕ
little_endian [] = 0
little_endian (b ∷ bs) = b + 256 * little_endian bs

unfoldable pub load16 : Memory → ℕ → ℕ
unfolding little_endian
load16 mem a = little_endian (span mem a 2)

unfoldable pub load64 : Memory → ℕ → ℕ
unfolding little_endian
load64 mem a = little_endian (span mem a 8)

-- The bytes of a number, highest first: the order of the network.
unfoldable pub big_endian16 : ℕ → Bytes
big_endian16 x = x / 2 ^ 8 % 256 ∷ x % 256 ∷ []

unfoldable pub big_endian64 : ℕ → Bytes
big_endian64 x =
    x / 2 ^ 56 % 256
    ∷ x / 2 ^ 48 % 256
    ∷ x / 2 ^ 40 % 256
    ∷ x / 2 ^ 32 % 256
    ∷ x / 2 ^ 24 % 256
    ∷ x / 2 ^ 16 % 256
    ∷ x / 2 ^ 8 % 256
    ∷ x % 256
    ∷ []

pub store16-swap16 : (x : ℕ) → store16 (swap16 x) ≡ big_endian16 x
unfolding store16 swap16 big_endian16
store16-swap16 x = cons-eq (omega arith) (cons-eq (omega arith) refl)

swap32-lt : (x : ℕ) → swap32 x < 2 ^ 32
unfolding swap32
swap32-lt x = omega arith

swap32_bytes :
    (x : ℕ)
    → (swap32 x % 256 ≡ x / 2 ^ 24 % 256)
      × (swap32 x / 2 ^ 8 % 256 ≡ x / 2 ^ 16 % 256)
      × (swap32 x / 2 ^ 16 % 256 ≡ x / 2 ^ 8 % 256)
      × (swap32 x / 2 ^ 24 % 256 ≡ x % 256)
unfolding swap32
swap32_bytes x = omega arith

pub htonll-lt : (x : ℕ) → htonll x < 2 ^ 64
unfolding htonll
htonll-lt x = omega (arith, swap32-lt (x % 2 ^ 32), swap32-lt (x / 2 ^ 32 % 2 ^ 32))

-- The bytes of two words of 32 bits, one above the other.
join_low :
    (l h : ℕ)
    → h < 2 ^ 32
    → ((l * 2 ^ 32 + h) % 256 ≡ h % 256)
      × ((l * 2 ^ 32 + h) / 2 ^ 8 % 256 ≡ h / 2 ^ 8 % 256)
      × ((l * 2 ^ 32 + h) / 2 ^ 16 % 256 ≡ h / 2 ^ 16 % 256)
      × ((l * 2 ^ 32 + h) / 2 ^ 24 % 256 ≡ h / 2 ^ 24 % 256)
join_low l h lt = omega arith

join_high :
    (l h : ℕ)
    → h < 2 ^ 32
    → ((l * 2 ^ 32 + h) / 2 ^ 32 % 256 ≡ l % 256)
      × ((l * 2 ^ 32 + h) / 2 ^ 40 % 256 ≡ l / 2 ^ 8 % 256)
      × ((l * 2 ^ 32 + h) / 2 ^ 48 % 256 ≡ l / 2 ^ 16 % 256)
      × ((l * 2 ^ 32 + h) / 2 ^ 56 % 256 ≡ l / 2 ^ 24 % 256)
join_high l h lt = omega arith

-- `htonll`, stored on a little-endian machine, gives the bytes in the order of the network.
pub store64-htonll : (x : ℕ) → store64 (htonll x) ≡ big_endian64 x
unfolding store64 htonll big_endian64
store64-htonll x =
    let high = x / 2 ^ 32 % 2 ^ 32 in
    let low = x % 2 ^ 32 in
    let a = join_low (swap32 low) (swap32 high) (swap32-lt high) in
    let b = join_high (swap32 low) (swap32 high) (swap32-lt high) in
    let h = swap32_bytes high in
    let l = swap32_bytes low in
    cons-eq (a.0 ∙ h.0 ∙ omega arith) (
      cons-eq (a.1 ∙ h.1 ∙ omega arith) (
        cons-eq (a.2 ∙ h.2 ∙ omega arith) (
          cons-eq (a.3 ∙ h.3 ∙ omega arith) (
            cons-eq (b.0 ∙ l.0 ∙ omega arith) (
              cons-eq (b.1 ∙ l.1 ∙ omega arith)
                (cons-eq (b.2 ∙ l.2 ∙ omega arith) (cons-eq (b.3 ∙ l.3 ∙ omega arith) refl)))))))

pub little_endian-store64 : (x : ℕ) → x < 2 ^ 64 → little_endian (store64 x) ≡ x
unfolding little_endian store64
little_endian-store64 x h = omega arith

-- The 16-bit length of a frame, read as it is written.
pub swap16-little_endian : (x : ℕ) → x < 2 ^ 16 → swap16 (little_endian (big_endian16 x)) ≡ x
unfolding little_endian swap16 big_endian16
swap16-little_endian x h = omega arith
