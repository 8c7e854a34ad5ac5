-- ===== src/Base/Search.antt =====
-- `memchr` of the C library, over the bytes that it may look at; `none` is NULL, and the index is
-- the distance from the start.
use Prim.Native.Nat.{ℕ, suc, ◌<◌}
use mathlib.Core.List.{[], ◌∷◌, ◌++◌}
use mathlib.Core.Logic.{◌≢◌, ◌⊎◌, inl, inr}
use mathlib.Core.Option.{Option, none, some}
use mathlib.Core.Path.{◌≡◌, refl, ap}
use native.Mathlib.Omega.{arith}
use cppsp_ng.Base.Tests.{◌==◌, if◌then◌else◌, Bool-cases}
use cppsp_ng.Base.Lists.{length, take, drop}
use cppsp_ng.Base.Bytes.{Bytes, All}

abbrev pub Lacks : ℕ → Bytes → Type 0
Lacks b = All (λ c. c ≢ b)

abbrev pub next_index : Option ℕ → Option ℕ
next_index none = none
next_index (some i) = some (suc i)

unfoldable pub memchr : ℕ → Bytes → Option ℕ
memchr c [] = none
memchr c (x ∷ xs) = if x == c then some 0 else next_index (memchr c xs)

pub record FoundAt (c : ℕ) (xs : Bytes) (i : ℕ) : Type 0 where
  pub in_range : i < length xs
  pub around : xs ≡ take i xs ++ c ∷ drop (suc i) xs
  pub first : Lacks c (take i xs)

pub memchr-head : (c : ℕ) (xs : Bytes) → memchr c (c ∷ xs) ≡ some 0
unfolding memchr
memchr-head c xs = ground arith

pub memchr-skip : (c x : ℕ) (xs : Bytes) → x ≢ c → memchr c (x ∷ xs) ≡ next_index (memchr c xs)
unfolding memchr
memchr-skip c x xs h = ground arith

pub memchr-Lacks : (c : ℕ) (xs : Bytes) → Lacks c xs → memchr c xs ≡ none
memchr-Lacks c [] h = unfold memchr in refl
memchr-Lacks c (x ∷ xs) (hx, hs) = ground (arith, memchr-skip c x xs hx, memchr-Lacks c xs hs)

pub memchr-append :
    (c : ℕ) (xs ys : Bytes) → Lacks c xs → memchr c (xs ++ c ∷ ys) ≡ some (length xs)
memchr-append c [] ys h = memchr-head c ys
memchr-append c (x ∷ xs) ys (hx, hs) =
    ground (arith, memchr-skip c x (xs ++ c ∷ ys) hx, memchr-append c xs ys hs)

-- What `memchr` answers, in both cases.
pub memchr-cases :
    (c : ℕ) (xs : Bytes)
    → ((memchr c xs ≡ none) × Lacks c xs) ⊎ ((i : ℕ) × (memchr c xs ≡ some i) × FoundAt c xs i)
memchr-cases c [] = inl (unfold memchr in refl, tt)
memchr-cases c (x ∷ xs) = elim (Bool-cases (x == c)) [
  | inl hit ↦
      let e : x ≡ c = ground arith in
      inr (
        0,
        rw e (memchr-head c xs),
        record { in_range = omega arith; around = ap (λ (y : ℕ). y ∷ xs) e; first = tt },
      )
  | inr miss ↦
      let ne : x ≢ c = ground arith in
      elim (memchr-cases c xs) [
        | inl (e, h) ↦ inl (ground (arith, memchr-skip c x xs ne), (ne, h))
        | inr (i, e, h) ↦ inr (
          suc i,
          ground (arith, memchr-skip c x xs ne),
          record {
            in_range = omega (arith, h.in_range);
            around = ap (λ (ys : Bytes). x ∷ ys) h.around;
            first = (ne, h.first);
          },
        )
      ]
]
