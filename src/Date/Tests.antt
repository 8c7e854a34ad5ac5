-- ===== src/Date/Tests.antt =====
-- The theorems on dates at a concrete time.
use cppsp_ng.Base.{ℕ, ◌-◌, ◌≡◌, refl, some, [], ◌∷◌, ◌++◌, arith}
use cppsp_ng.Base.Bytes.{Bytes, codes}
use cppsp_ng.Base.Cursor.{Cursor, Wrote}
use cppsp_ng.Decimal.Digits.{IsLog}
use cppsp_ng.Decimal.Tests.{small_log, small_log-IsLog, page}
use cppsp_ng.Date.Words.{s4, itoa4, store32}
use cppsp_ng.Date.Defs.{Tm, word, hour_word, min_word, sec_word, rfctime2, rfctime}
use cppsp_ng.Date.Text.{InRange, date_text}
use cppsp_ng.Date.Print.{rfctime2_lem}
use cppsp_ng.Date.Agree.{rfctime-rfctime2}

abbrev sample : Tm
sample = record { sec = 37; min = 49; hour = 8; mday = 16; mon = 10; year = 94; wday = 0 }

sample-InRange : InRange sample
sample-InRange = record {
  wday_lt = omega arith;
  mday_lt = omega arith;
  mon_lt = omega arith;
  year_lt = omega arith;
  hour_lt = omega arith;
  min_lt = omega arith;
  sec_lt = omega arith;
}

sample_text : rfctime2 sample (codes "x") ≡ some (29, codes "xSun, 16 Nov 1994 08:49:37 GMT")
unfolding rfctime2 word s4 itoa4 hour_word min_word sec_word store32
sample_text = refl

rfctime2_example : rfctime2 sample (codes "x") ≡ some (29, codes "x" ++ date_text sample)
rfctime2_example = rfctime2_lem sample (codes "x") sample-InRange

small_log-IsLog_years : IsLog small_log 10000
small_log-IsLog_years = record {
  lower = λ i pos lt. small_log-IsLog.lower i pos (omega arith);
  upper = λ i pos lt. small_log-IsLog.upper i pos (omega arith);
}

rfctime-rfctime2_example :
    (d : Cursor) × (n : ℕ) × (s : Bytes) × (rfctime2 sample [] ≡ some (n, s))
    × (rfctime small_log sample page ≡ some d)
    × Wrote page (s ++ 0 ∷ []) d
    × (d.at - page.at - 1 ≡ n)
rfctime-rfctime2_example =
    rfctime-rfctime2 small_log small_log-IsLog_years sample page sample-InRange (omega arith)
