-- ===== src/Base/Equal.antt =====
-- Equality of strings: `==` of `string_view`.
use cppsp_ng.Base.{◌≡◌, refl, Bool, true, false, ◌&&◌, [], ◌∷◌, ◌==◌, cons-eq, arith}
use cppsp_ng.Base.Bytes.{Bytes}

unfoldable pub equal : Bytes → Bytes → Bool
equal [] [] = true
equal [] (b ∷ t) = false
equal (a ∷ s) [] = false
equal (a ∷ s) (b ∷ t) = a == b && equal s t

pub equal_sound : (s t : Bytes) → equal s t ≡ true → s ≡ t
unfolding equal
equal_sound [] [] e = refl
equal_sound [] (b ∷ t) e = ground arith
equal_sound (a ∷ s) [] e = ground arith
equal_sound (a ∷ s) (b ∷ t) e =
    let h : equal s t ≡ true = ground arith in cons-eq (ground arith) (equal_sound s t h)

pub equal_refl : (s : Bytes) → equal s s ≡ true
unfolding equal
equal_refl [] = refl
equal_refl (a ∷ s) = ground (arith, equal_refl s)
