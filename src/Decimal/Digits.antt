-- ===== src/Decimal/Digits.antt =====
-- What the functions write: the decimal digits of the number, highest first.
use cppsp_ng.Base.{
  ℕ, zero, suc, ◌+◌, ◌-◌, ◌*◌, ◌/◌, ◌%◌, ◌≤◌, ◌<◌, ◌≡◌, refl, ap, ◌∙◌, ◌⊎◌, inl, inr, true, false,
  some, [], ◌∷◌, ◌++◌, ◌==◌, Bool-cases, length, length-append, cons-eq, arith,
}
use cppsp_ng.Base.Bytes.{Bytes}
use cppsp_ng.Base.Memory.{Memory, span, poke}
use cppsp_ng.Base.Cursor.{Cursor, Wrote, span-add, poke_at, poke_else}
use cppsp_ng.Decimal.Defs.{digit_loop, digit_count, itoa64, itoa1, pad_loop, itoa2}

abbrev pub pow10 : ℕ → ℕ
pow10 zero = 1
pow10 (suc k) = 10 * pow10 k

-- The `k` lowest digits of a number.
unfoldable pub digits : ℕ → ℕ → Bytes
digits zero i = []
digits (suc k) i = digits k (i / 10) ++ (b'0' + i % 10) ∷ []

pub length-digits : (k i : ℕ) → length (digits k i) ≡ k
unfolding digits
length-digits zero i = refl
length-digits (suc k) i =
    omega
      (arith, length-append (digits k (i / 10)) ((b'0' + i % 10) ∷ []), length-digits k (i / 10))

-- Reading digits back.
abbrev pub number : ℕ → Bytes → ℕ
number acc [] = acc
number acc (b ∷ bs) = number (acc * 10 + (b - b'0')) bs

number-append : (acc : ℕ) (s t : Bytes) → number acc (s ++ t) ≡ number (number acc s) t
number-append acc [] t = refl
number-append acc (b ∷ s) t = number-append (acc * 10 + (b - b'0')) s t

pub number-digits : (k i : ℕ) → i < pow10 k → number 0 (digits k i) ≡ i
unfolding digits
number-digits zero i h = omega arith
number-digits (suc k) i h =
    number-append 0 (digits k (i / 10)) ((b'0' + i % 10) ∷ [])
    ∙ omega (arith, number-digits k (i / 10) (omega arith))

-- `log10` rounded down.
pub record IsLog (log10 : ℕ → ℕ) (bound : ℕ) : Type 0 where
  pub lower : (i : ℕ) → 0 < i → i < bound → pow10 (log10 i) ≤ i
  pub upper : (i : ℕ) → 0 < i → i < bound → i < pow10 (suc (log10 i))

pow10_pos : (k : ℕ) → 0 < pow10 k
pow10_pos zero = omega arith
pow10_pos (suc k) = omega (arith, pow10_pos k)

lt-pow10 : (k : ℕ) → k < pow10 k
lt-pow10 zero = omega arith
lt-pow10 (suc k) = omega (arith, lt-pow10 k)

-- The number of digits of `i`, less one.
abbrev Fits : ℕ → ℕ → Type 0
Fits k i = (i < pow10 (suc k)) × ((k ≡ 0) ⊎ (pow10 k ≤ i))

record Filled (mem : Memory) (p k i : ℕ) (m : Memory) : Type 0 where
  text_eq : span m p k ≡ digits k i
  below : (j : ℕ) → j < p → m j ≡ mem j

digit_loop-Filled :
    (k fuel i p : ℕ) (mem : Memory)
    → Fits k i
    → k < fuel
    → (m : Memory) × (digit_loop fuel i (p + suc k) mem ≡ some m)
      × Filled mem p (suc k) i m
      × ((j : ℕ) → p + suc k ≤ j → m j ≡ mem j)
unfolding digit_loop digits
digit_loop-Filled k zero i p mem f h = absurd (omega arith)
digit_loop-Filled zero (suc fuel) i p mem f h =
    let last : (i / 10 == 0) ≡ true = ground arith in
    let here : p + 1 - 1 ≡ p = omega arith in
    let d = b'0' + i % 10 in
    rw (last, here)
      (
        poke mem p d,
        refl,
        record {
          text_eq = cons-eq (poke_at mem p d p refl) refl;
          below = λ j lt. poke_else mem p d j (λ e. omega arith);
        },
        λ j le. poke_else mem p d j (λ e. omega arith),
      )
digit_loop-Filled (suc k) (suc fuel) i p mem f h =
    let q = p + suc k in
    let d = b'0' + i % 10 in
    let more : (i / 10 == 0) ≡ false = ground (arith, pow10_pos k) in
    let here : p + suc (suc k) - 1 ≡ q = omega arith in
    let fits : Fits k (i / 10) = (omega arith, inr (omega arith)) in
    let (m, e, r, above) = digit_loop-Filled k fuel (i / 10) p (poke mem q d) fits (omega arith) in
    let digit : m q ≡ d = above q (omega arith) ∙ poke_at mem q d q refl in
    rw (more, here)
      (
        m,
        e,
        record {
          text_eq =
              ap (λ (n : ℕ). span m p n) (let n_eq : suc (suc k) ≡ suc k + 1 = omega arith in n_eq)
              ∙ span-add m p (suc k) 1
              ∙ ap (λ (t : Bytes). t ++ m q ∷ []) r.text_eq
              ∙ ap (λ (b : ℕ). digits (suc k) (i / 10) ++ b ∷ []) digit;
          below = λ j lt. r.below j lt ∙ poke_else mem q d j (λ e. omega arith);
        },
        λ j le. above j (omega arith) ∙ poke_else mem q d j (λ e. omega arith),
      )

-- The decimal text of a number.
abbrev pub decimal : (ℕ → ℕ) → ℕ → Bytes
decimal log10 i = digits (digit_count log10 i) i

module _ (log10 : ℕ → ℕ) (bound : ℕ) (log : IsLog log10 bound) where
  digit_count-Fits :
      (i : ℕ) → i < bound → (k : ℕ) × (digit_count log10 i ≡ suc k) × Fits k i × (k < suc i)
  digit_count-Fits i lt = elim (Bool-cases (i == 0)) [
    | inl none_left ↦ rw none_left (0, omega arith, (ground arith, inl refl), omega arith)
    | inr some_left ↦
        let pos : 0 < i = ground arith in
        let lower = log.lower i pos lt in
        rw some_left
          (log10 i, omega arith, (log.upper i pos lt, inr lower), omega (arith, lt-pow10 (log10 i)))
  ]

  -- For a number below the bound up to which the logarithm is right, `itoa64` ends and writes the decimal text
  -- of the number, a 0 byte behind it, and nothing before it.
  pub itoa64-Wrote :
      (i : ℕ) (c : Cursor)
      → i < bound
      → (d : Cursor) × (itoa64 log10 i c ≡ some d) × Wrote c (decimal log10 i) d
  unfolding itoa64
  itoa64-Wrote i c lt =
      let (k, count, fits, enough) = digit_count-Fits i lt in
      let (m, e, r, above) =
        digit_loop-Filled k (suc i) i c.at (poke c.mem (c.at + suc k) 0) fits enough in
      rw (count, e, itoa64)
        (
          _,
          refl,
          record {
            at_eq = omega (arith, length-digits (suc k) i);
            text_eq = ap (λ (n : ℕ). span m c.at n) (length-digits (suc k) i) ∙ r.text_eq;
            below = λ j h. r.below j h ∙ poke_else c.mem (c.at + suc k) 0 j (λ e. omega arith);
          },
        )

  pub itoa1-Wrote :
      (i : ℕ) (c : Cursor)
      → i < bound
      → (d : Cursor) × (itoa1 log10 i c ≡ some d) × Wrote c (decimal log10 i) d
  unfolding itoa1
  itoa1-Wrote i c lt = itoa64-Wrote i c lt

pad_loop-Filled :
    (k i p : ℕ) (mem : Memory)
    → Filled mem p k i (pad_loop k i p mem) × ((j : ℕ) → p + k ≤ j → pad_loop k i p mem j ≡ mem j)
unfolding pad_loop digits
pad_loop-Filled zero i p mem = (record { text_eq = refl; below = λ j h. refl }, λ j h. refl)
pad_loop-Filled (suc k) i p mem =
    let d = b'0' + i % 10 in
    let (r, above) = pad_loop-Filled k (i / 10) p (poke mem (p + k) d) in
    let m = pad_loop k (i / 10) p (poke mem (p + k) d) in
    let digit : m (p + k) ≡ d = above (p + k) (omega arith) ∙ poke_at mem (p + k) d (p + k) refl in
    (
      record {
        text_eq =
            ap (λ (n : ℕ). span m p n) (let n_eq : suc k ≡ k + 1 = omega arith in n_eq)
            ∙ span-add m p k 1
            ∙ ap (λ (t : Bytes). t ++ m (p + k) ∷ []) r.text_eq
            ∙ ap (λ (b : ℕ). digits k (i / 10) ++ b ∷ []) digit;
        below = λ j lt. r.below j lt ∙ poke_else mem (p + k) d j (λ e. omega arith);
      },
      λ j le. above j (omega arith) ∙ poke_else mem (p + k) d j (λ e. omega arith),
    )

-- `itoa2` writes as many digits as it is asked for, the lowest ones, with zeros in front.
pub itoa2-Wrote : (i d : ℕ) (c : Cursor) → Wrote c (digits d i) (itoa2 i d c)
unfolding itoa2
itoa2-Wrote i d c =
    let (r, _) = pad_loop-Filled d i c.at c.mem in
    record {
      at_eq = omega (arith, length-digits d i);
      text_eq =
          ap (λ (n : ℕ). span (pad_loop d i c.at c.mem) c.at n) (length-digits d i) ∙ r.text_eq;
      below = r.below;
    }

pow10_mono : (j k : ℕ) → j ≤ k → pow10 j ≤ pow10 k
pow10_mono j zero h = rw (let e : j ≡ 0 = omega arith in e) (omega arith)
pow10_mono zero (suc k) h = pow10_pos (suc k)
pow10_mono (suc j) (suc k) h = omega (arith, pow10_mono j k (omega arith))

-- How many digits a number has.
pub digit_count_lem :
    {log10 : ℕ → ℕ} {bound : ℕ} (i k : ℕ)
    → IsLog log10 bound
    → 0 < i
    → i < bound
    → pow10 k ≤ i
    → i < pow10 (suc k)
    → digit_count log10 i ≡ suc k
digit_count_lem {log10} i k log pos lt lo hi =
    let some_left : (i == 0) ≡ false = ground arith in
    let lower = log.lower i pos lt in
    let upper = log.upper i pos lt in
    let same : log10 i ≡ k = elim (cases (log10 i) k) [
      | inl e ↦ e
      | inr (inl less) ↦ absurd (omega (arith, pow10_mono (suc (log10 i)) k less))
      | inr (inr more) ↦ absurd (omega (arith, pow10_mono (suc k) (log10 i) more))
    ] in
    rw (some_left, same) (omega arith)
  where
    cases : (a b : ℕ) → (a ≡ b) ⊎ (suc a ≤ b) ⊎ (suc b ≤ a)
    cases a b = omega arith
