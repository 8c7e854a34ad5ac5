-- ===== src/Request/Case.antt =====
-- `ci_equals` and `ci_compare` compare texts in lower case.
use mathlib.Core.List.{map}
use cppsp_ng.Base.{
  ℕ, ◌+◌, ap, ◌∙◌, if◌then◌else◌, ◌&&◌, cons-eq, ◌≡◌, refl, sym, ◌⊎◌, inl, inr, true, false, [],
  ◌∷◌, ltb, ◌==◌, Bool-cases, length, arith,
}
use cppsp_ng.Base.Bytes.{Bytes}
use cppsp_ng.Base.Equal.{equal}
use cppsp_ng.Http.Text.{tolower, ci_loop, ci_equals, ci_compare_loop, ci_compare}
use cppsp_ng.Request.Defs.{is_equal}

unequal_lengths : (s t : Bytes) → (length s == length t) ≡ false → equal s t ≡ false
unfolding equal
unequal_lengths [] [] e = ground arith
unequal_lengths [] (b ∷ t) e = refl
unequal_lengths (a ∷ s) [] e = refl
unequal_lengths (a ∷ s) (b ∷ t) e = ground (arith, unequal_lengths s t (ground arith))

length-map-tolower : (s : Bytes) → length (map tolower s) ≡ length s
length-map-tolower [] = refl
length-map-tolower (c ∷ s) = ground (arith, length-map-tolower s)

ci_loop-equal :
    (s t : Bytes) → (length s == length t) ≡ true → ci_loop s t ≡ equal (map tolower s) t
unfolding ci_loop equal
ci_loop-equal [] [] e = refl
ci_loop-equal [] (b ∷ t) e = ground arith
ci_loop-equal (a ∷ s) [] e = ground arith
ci_loop-equal (a ∷ s) (b ∷ t) e = elim (Bool-cases (tolower a == b)) [
  | inl hit ↦ rw hit (ci_loop-equal s t (ground arith))
  | inr miss ↦ rw miss refl
]

-- A letter from `A` to `Z`, with ASCII codes 65 to 90, is 32 below its lower case.
unfoldable pub lower_case : ℕ → ℕ
lower_case c = if ltb 64 c && ltb c 91 then c + 32 else c

tolower_lem : (c : ℕ) → tolower c ≡ lower_case c
unfolding tolower lower_case
tolower_lem c = ground arith

map-tolower : (s : Bytes) → map tolower s ≡ map lower_case s
map-tolower [] = refl
map-tolower (c ∷ s) = cons-eq (tolower_lem c) (map-tolower s)

ci_equals-tolower : (s t : Bytes) → ci_equals s t ≡ equal (map tolower s) t
unfolding ci_equals
ci_equals-tolower s t = elim (Bool-cases (length s == length t)) [
  | inl e ↦ rw e (ci_loop-equal s t e)
  | inr e ↦ rw e (sym (unequal_lengths (map tolower s) t (rw (length-map-tolower s) e)))
]

-- `ci_equals` says whether the first text in lower case is the second.
pub ci_equals_lem : (s t : Bytes) → ci_equals s t ≡ equal (map lower_case s) t
ci_equals_lem s t = ci_equals-tolower s t ∙ ap (λ (x : Bytes). equal x t) (map-tolower s)

-- Two numbers compared both ways.
order-cases :
    (a b : ℕ)
    → ((a == b) ≡ true) × (ltb a b ≡ false) × (ltb b a ≡ false)
      ⊎ ((a == b) ≡ false) × (ltb a b ≡ true)
      ⊎ ((a == b) ≡ false) × (ltb a b ≡ false) × (ltb b a ≡ true)
order-cases a b = ground arith

ci_compare_loop-equal :
    (s t : Bytes)
    → (length s == length t) ≡ true
    → is_equal (ci_compare_loop s t) ≡ equal (map tolower s) (map tolower t)
unfolding ci_compare_loop equal is_equal
ci_compare_loop-equal [] [] e = refl
ci_compare_loop-equal [] (b ∷ t) e = ground arith
ci_compare_loop-equal (a ∷ s) [] e = ground arith
ci_compare_loop-equal (a ∷ s) (b ∷ t) e = elim (order-cases (tolower a) (tolower b)) [
  | inl (same, x, y) ↦ rw (same, x, y) (ci_compare_loop-equal s t (ground arith))
  | inr (inl (other, x)) ↦ rw (other, x) refl
  | inr (inr (other, x, y)) ↦ rw (other, x, y) refl
]

ci_compare-tolower :
    (s t : Bytes) → is_equal (ci_compare s t) ≡ equal (map tolower s) (map tolower t)
unfolding ci_compare is_equal
ci_compare-tolower s t = elim (Bool-cases (length s == length t)) [
  | inl e ↦
      let a : ltb (length t) (length s) ≡ false = ground arith in
      let b : ltb (length s) (length t) ≡ false = ground arith in
      rw (a, b) (ci_compare_loop-equal s t e)
  | inr e ↦
      let other : equal (map tolower s) (map tolower t) ≡ false =
        unequal_lengths (map tolower s) (map tolower t)
          (rw (length-map-tolower s, length-map-tolower t) e) in
      elim (Bool-cases (ltb (length t) (length s))) [
        | inl a ↦ rw (a, other) refl
        | inr a ↦ let b : ltb (length s) (length t) ≡ true = ground arith in rw (a, b, other) refl
      ]
]

-- `ci_compare` gives 0 exactly if the texts agree in lower case, where the letters from `A` to `Z` have a lower case of their own.
pub ci_compare_lem :
    (s t : Bytes) → is_equal (ci_compare s t) ≡ equal (map lower_case s) (map lower_case t)
ci_compare_lem s t = rw (← map-tolower s, ← map-tolower t) (ci_compare-tolower s t)
