-- ===== src/Base/Find.antt =====
-- What the searches in memory find.
use Prim.Native.Nat.{ℕ, zero, suc, ◌+◌, ◌-◌, ◌≤◌, ◌<◌}
use mathlib.Core.Bool.{Bool, false, ◌&&◌}
use mathlib.Core.List.{[], ◌∷◌, ◌++◌}
use mathlib.Core.Logic.{◌≢◌, ◌⊎◌, inl, inr}
use mathlib.Core.Option.{none, some}
use mathlib.Core.Path.{◌≡◌, refl, sym, ap, ap₂, ◌∙◌, subst}
use native.Mathlib.Omega.{arith}
use cppsp_ng.Base.Tests.{ltb, ◌==◌, Bool-cases}
use cppsp_ng.Base.Lists.{length, get_or, cons-eq, head_eq, tail_eq}
use cppsp_ng.Base.Bytes.{Bytes}
use cppsp_ng.Base.Memory.{Memory, span, find_byte, find_line_end}

pub record ByteAt (mem : Memory) (c b n i : ℕ) : Type 0 where
  pub from : b ≤ i
  pub before : i < b + n
  pub holds : mem i ≡ c
  pub first : (j : ℕ) → b ≤ j → j < i → mem j ≢ c

-- A fact about an address and about each of those behind it.
pub extend_from :
    {P : ℕ → Type 0} (b k : ℕ)
    → P b
    → ((j : ℕ) → suc b ≤ j → j < k → P j)
    → (j : ℕ) → b ≤ j
    → j < k
    → P j
extend_from {P} b k here behind j lo hi = elim (Bool-cases (b == j)) [
  | inl e ↦ subst P (ground arith) here
  | inr ne ↦ behind j (ground arith) hi
]

abbrev pub Absent : Memory → ℕ → ℕ → ℕ → Type 0
Absent mem c b k = (j : ℕ) → b ≤ j → j < k → mem j ≢ c

pub find_byte-cases :
    (mem : Memory) (c b n : ℕ)
    → ((find_byte mem c b n ≡ none) × Absent mem c b (b + n))
      ⊎ ((i : ℕ) × (find_byte mem c b n ≡ some i) × ByteAt mem c b n i)
unfolding find_byte
find_byte-cases mem c b zero = inl (refl, λ j lo hi. absurd (omega arith))
find_byte-cases mem c b (suc n) = elim (Bool-cases (mem b == c)) [
  | inl hit ↦ inr (
    b,
    rw hit,
    record {
      from = omega arith;
      before = omega arith;
      holds = ground arith;
      first = λ j lo hi. absurd (omega arith);
    },
  )
  | inr miss ↦ rw miss (later (ground arith) (find_byte-cases mem c (suc b) n))
]
  where
    later :
        mem b ≢ c
        → ((find_byte mem c (suc b) n ≡ none) × Absent mem c (suc b) (suc b + n))
          ⊎ ((i : ℕ) × (find_byte mem c (suc b) n ≡ some i) × ByteAt mem c (suc b) n i)
        → ((find_byte mem c (suc b) n ≡ none) × Absent mem c b (b + suc n))
          ⊎ ((i : ℕ) × (find_byte mem c (suc b) n ≡ some i) × ByteAt mem c b (suc n) i)
    later miss (inl (e, h)) =
        inl (e, extend_from b (b + suc n) miss (λ j lo hi. h j lo (omega arith)))
    later miss (inr (i, e, h)) = inr (
      i,
      e,
      record {
        from = omega (arith, h.from);
        before = omega (arith, h.before);
        holds = h.holds;
        first = extend_from b i miss h.first;
      },
    )

-- No line end stands at an address.
abbrev pub NoLineEnd : Memory → ℕ → Type 0
NoLineEnd mem j = mem j ≡ 13 → mem (suc j) ≢ 10

abbrev pub NoLineEnds : Memory → ℕ → ℕ → Type 0
NoLineEnds mem b k = (j : ℕ) → b ≤ j → j < k → NoLineEnd mem j

pub record LineEndAt (mem : Memory) (b n i : ℕ) : Type 0 where
  pub from : b ≤ i
  pub before : suc i < b + n
  pub cr : mem i ≡ 13
  pub lf : mem (suc i) ≡ 10
  pub first : NoLineEnds mem b i

line_end_test : Memory → ℕ → ℕ → Bool
line_end_test mem b n = ltb 0 n && (mem b == 13 && mem (suc b) == 10)

pub find_line_end-cases :
    (mem : Memory) (b n : ℕ)
    → ((find_line_end mem b n ≡ none) × NoLineEnds mem b (b + n - 1))
      ⊎ ((i : ℕ) × (find_line_end mem b n ≡ some i) × LineEndAt mem b n i)
unfolding find_line_end line_end_test
find_line_end-cases mem b zero = inl (refl, λ j lo hi. absurd (omega arith))
find_line_end-cases mem b (suc n) = elim (Bool-cases (line_end_test mem b n)) [
  | inl hit ↦ inr (
    b,
    rw hit,
    record {
      from = omega arith;
      before = ground arith;
      cr = ground arith;
      lf = ground arith;
      first = λ j lo hi. absurd (omega arith);
    },
  )
  | inr miss ↦ rw miss (later miss (find_line_end-cases mem (suc b) n))
]
  where
    absent : line_end_test mem b n ≡ false → 0 < n → NoLineEnd mem b
    absent miss pos cr lf = ground arith

    later :
        line_end_test mem b n ≡ false
        → ((find_line_end mem (suc b) n ≡ none) × NoLineEnds mem (suc b) (suc b + n - 1))
          ⊎ ((i : ℕ) × (find_line_end mem (suc b) n ≡ some i) × LineEndAt mem (suc b) n i)
        → ((find_line_end mem (suc b) n ≡ none) × NoLineEnds mem b (b + suc n - 1))
          ⊎ ((i : ℕ) × (find_line_end mem (suc b) n ≡ some i) × LineEndAt mem b (suc n) i)
    later miss (inl (e, h)) = inl (
      e,
      λ j lo hi.
          extend_from {P = NoLineEnd mem} b (b + suc n - 1) (absent miss (omega arith))
            (λ k l u. h k l (omega arith)) j lo hi,
    )
    later miss (inr (i, e, h)) = inr (
      i,
      e,
      record {
        from = omega (arith, h.from);
        before = omega (arith, h.before);
        cr = h.cr;
        lf = h.lf;
        first =
            extend_from {P = NoLineEnd mem} b i (absent miss (omega (arith, h.from, h.before)))
              h.first;
      },
    )

pub length-span : (mem : Memory) (b n : ℕ) → length (span mem b n) ≡ n
length-span mem b zero = refl
length-span mem b (suc n) = ap suc (length-span mem (suc b) n)

-- A span depends on its own bytes only.
pub span-eq :
    (mem mem' : Memory) (b b' n : ℕ)
    → ((i : ℕ) → i < n → mem (b + i) ≡ mem' (b' + i))
    → span mem b n ≡ span mem' b' n
span-eq mem mem' b b' zero h = refl
span-eq mem mem' b b' (suc n) h =
    ap₂ (λ (x : ℕ) (xs : Bytes). x ∷ xs) (at 0 b b' (omega arith) (omega arith) (omega arith))
      (span-eq mem mem' (suc b) (suc b') n
        λ i lt. at (suc i) (suc b + i) (suc b' + i) (omega arith) (omega arith) (omega arith))
  where
    at : (i k k' : ℕ) → i < suc n → k ≡ b + i → k' ≡ b' + i → mem k ≡ mem' k'
    at i k k' lt e e' = ap mem e ∙ h i lt ∙ sym (ap mem' e')

-- The bytes of a text that lies in memory in two pieces.
pub span-split :
    (mem : Memory) (b : ℕ) (xs ys : Bytes)
    → span mem b (length (xs ++ ys)) ≡ xs ++ ys
    → (span mem b (length xs) ≡ xs) × (span mem (b + length xs) (length ys) ≡ ys)
span-split mem b [] ys h = (refl, ap (λ (a : ℕ). span mem a (length ys)) (omega arith) ∙ h)
span-split mem b (x ∷ xs) ys h =
    let rest = span-split mem (suc b) xs ys (tail_eq h) in
    (
      cons-eq (head_eq h) rest.0,
      ap (λ (a : ℕ). span mem a (length ys))
            (let e : b + suc (length xs) ≡ suc b + length xs = omega arith in e)
          ∙ rest.1,
    )

pub span_index :
    (mem : Memory) (b n i : ℕ) (d : ℕ) → i < n → get_or (span mem b n) i d ≡ mem (b + i)
span_index mem b zero i d h = absurd (omega arith)
span_index mem b (suc n) zero d h = ap mem (omega arith)
span_index mem b (suc n) (suc i) d h =
    span_index mem (suc b) n i d (omega arith) ∙ ap mem (omega arith)
