-- ===== src/Decimal/Tests.antt =====
-- The functions for decimal text at concrete numbers.
use cppsp_ng.Base.{ℕ, ◌≡◌, refl, ltb, if◌then◌else◌, arith}
use cppsp_ng.Base.Bytes.{codes}
use cppsp_ng.Base.Cursor.{Cursor}
use cppsp_ng.Decimal.Digits.{decimal, IsLog, digits}

-- The logarithm for numbers below 100000.
abbrev pub small_log : ℕ → ℕ
small_log i =
    if ltb i 10
    then 0
    else if ltb i 100
    then 1
    else if ltb i 1000
    then 2
    else if ltb i 10000
    then 3
    else 4

pub small_log-IsLog : IsLog small_log 100000
small_log-IsLog = record { lower = λ i pos lt. ground arith; upper = λ i pos lt. ground arith }

abbrev pub page : Cursor
page = record { mem = λ _. 0; at = 3 }

text_1024 : decimal small_log 1024 ≡ codes "1024"
unfolding digits
text_1024 = refl
