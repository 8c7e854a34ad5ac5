-- ===== src/Split/Tests.antt =====
-- Runs of the cursors of split.H, and the theorems at concrete texts.
use cppsp_ng.Base.{◌+◌, ◌≡◌, refl, ◌⊎◌, some, List, [], ◌∷◌, ◌++◌, length, arith}
use cppsp_ng.Base.Bytes.{Bytes, All, codes}
use cppsp_ng.Base.Search.{Lacks, memchr}
use cppsp_ng.Split.Defs.{split, read_all, read_option}
use cppsp_ng.Split.Fields.{terminated, read_all-Spells, read_all-terminated}
use cppsp_ng.Split.Options.{at, Outcome, read_option-Outcome}

abbrev sample : Bytes
sample = codes "a&&bc&"

abbrev values : List Bytes
values = codes "a" ∷ [] ∷ codes "bc" ∷ []

values-Lacks : All (Lacks b'&') values
values-Lacks = ground arith

read_sample : read_all 8 (split sample b'&') ≡ some values
unfolding read_all memchr
read_sample = refl

read_all-Spells_example :
    (vs : List Bytes) × (read_all (length sample + 2) (split sample b'&') ≡ some vs)
    × All (Lacks b'&') vs
    × ((terminated b'&' vs ≡ sample) ⊎ (terminated b'&' vs ≡ sample ++ b'&' ∷ []))
read_all-Spells_example = read_all-Spells b'&' sample

read_all-terminated_example :
    read_all (length (terminated b'&' values) + 2) (split (terminated b'&' values) b'&')
    ≡ some values
read_all-terminated_example = read_all-terminated b'&' values values-Lacks

quoted-Lacks : Lacks b'"' (codes "a b")
quoted-Lacks = ground arith

read_option-Outcome_example : Outcome (codes "\"a b") (read_option (at (codes "\"a b") [] 32))
read_option-Outcome_example = read_option-Outcome b'"' (codes "a b") [] 32
