-- ===== src/Base/Bytes.antt =====
-- Strings of bytes: `char` is unsigned in this program (Makefile.in builds with -funsigned-char).
use Prim.Native.Nat.{ℕ, zero, suc, ◌<◌}
use Prim.Native.Char.{code}
use Prim.Native.String.{String}
use mathlib.Core.Bool.{Bool, true, false}
use mathlib.Core.Logic.{inl, inr}
use mathlib.Core.List.{List, [], ◌∷◌, ◌++◌}
use mathlib.Core.Path.{◌≡◌, ap, ◌∙◌}
use native.Mathlib.Omega.{arith}
use cppsp_ng.Base.Tests.{◌==◌, if◌then◌else◌, Bool-cases}

abbrev pub Bytes : Type 0
Bytes = List ℕ

-- The bytes of an ASCII literal.
abbrev pub codes : String → Bytes
codes String.[] = []
codes (String.◌∷◌ c s) = code c ∷ codes s

module _ {ℓ κ} {A : Type ℓ} (P : A → Type κ) where
  abbrev pub All : List A → Type κ
  All [] = Unit
  All (x ∷ xs) = P x × All xs

  pub All-append : (xs ys : List A) → All xs → All ys → All (xs ++ ys)
  All-append [] ys _ hy = hy
  All-append (x ∷ xs) ys (px, hx) hy = (px, All-append xs ys hx hy)

abbrev pub IsByte : ℕ → Type 0
IsByte c = c < 256

-- Whether a test holds of each of `k` numbers, from the highest down to 0, and what that shows of one of them.
unfoldable pub holds_below : (ℕ → Bool) → ℕ → Bool
holds_below test zero = true
holds_below test (suc k) = if test k then holds_below test k else false

pub holds_below-lt : (test : ℕ → Bool) (k c : ℕ) → c < k → holds_below test k ≡ true → test c ≡ true
unfolding holds_below
holds_below-lt test zero c lt e = absurd (omega arith)
holds_below-lt test (suc k) c lt e = elim (Bool-cases (test k)) [
  | inl here ↦ elim (Bool-cases (c == k)) [
    | inl last ↦ let same : c ≡ k = ground arith in ap test same ∙ here
    | inr other ↦ holds_below-lt test k c (ground arith) (rw here at e)
  ]
  | inr gone ↦ absurd (cc (rw gone at e))
]
