-- ===== src/Http/Text.antt =====
-- Comparison of text without regard to case: `tolower` and `HTTPParser::ci_equals` of
-- include/cppsp-ng/httpparser.H, and `ci_compare` of stringutils.C.
use cppsp_ng.Base.{
  ℕ, ◌+◌, ◌-◌, ◌≡◌, refl, Bool, true, false, ◌&&◌, [], ◌∷◌, ltb, leb, ◌==◌, if◌then◌else◌, length,
}
use cppsp_ng.Base.Int.{ℤ, pos, negsuc}
use cppsp_ng.Base.Bytes.{Bytes, codes}

unfoldable pub tolower : ℕ → ℕ
tolower c = if leb c b'Z' && leb b'A' c then c - b'A' + b'a' else c

-- The loop over texts of one length; `s2` is in lower case.
unfoldable pub ci_loop : Bytes → Bytes → Bool
unfolding tolower
ci_loop [] s2 = true
ci_loop (a ∷ s1) [] = true
ci_loop (a ∷ s1) (b ∷ s2) = if tolower a == b then ci_loop s1 s2 else false

unfoldable pub ci_equals : Bytes → Bytes → Bool
unfolding ci_loop
ci_equals s1 s2 = if length s1 == length s2 then ci_loop s1 s2 else false

unfoldable pub ci_compare_loop : Bytes → Bytes → ℤ
unfolding tolower
ci_compare_loop [] s2 = pos 0
ci_compare_loop (a ∷ s1) [] = pos 0
ci_compare_loop (a ∷ s1) (b ∷ s2) =
    if ltb (tolower a) (tolower b)
    then negsuc 0
    else if ltb (tolower b) (tolower a)
    then pos 1
    else ci_compare_loop s1 s2

unfoldable pub ci_compare : Bytes → Bytes → ℤ
unfolding ci_compare_loop
ci_compare s1 s2 =
    if ltb (length s2) (length s1)
    then pos 1
    else if ltb (length s1) (length s2)
    then negsuc 0
    else ci_compare_loop s1 s2

same_header : ci_equals (codes "Content-LENGTH") (codes "content-length") ≡ true
unfolding ci_equals
same_header = refl
