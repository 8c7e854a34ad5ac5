-- ===== src/Date/Text.antt =====
-- The date as it stands in a header, `Sun, 06 Nov 1994 08:49:37 GMT`.
use cppsp_ng.Base.{◌+◌, ◌<◌, ◌≤◌, [], ◌∷◌, ◌++◌, get_or}
use cppsp_ng.Base.Bytes.{Bytes, codes}
use cppsp_ng.Decimal.Digits.{digits}
use cppsp_ng.Date.Defs.{Tm, days, months}

pub record InRange (t : Tm) : Type 0 where
  pub wday_lt : t.wday < 7
  pub mday_lt : t.mday < 32
  pub mon_lt : t.mon < 12
  pub year_lt : t.year + 1900 < 10000
  pub hour_lt : t.hour < 24
  pub min_lt : t.min < 60
  pub sec_lt : t.sec ≤ 60

-- The part behind the day of the month.
unfoldable pub rest_text : Tm → Bytes
rest_text t =
    32
    ∷ (get_or months t.mon []
        ++ (32
            ∷ (digits 4 (t.year + 1900)
                ++ (32
                    ∷ (digits 2 t.hour
                        ++ (b':'
                            ∷ (digits 2 t.min ++ (b':' ∷ (digits 2 t.sec ++ codes " GMT")))))))))

unfoldable pub date_text : Tm → Bytes
unfolding rest_text
date_text t = get_or days t.wday [] ++ (b',' ∷ 32 ∷ (digits 2 t.mday ++ rest_text t))
