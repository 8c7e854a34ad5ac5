-- ===== src/Date/Defs.antt =====
-- `rfctime2` and `rfctime`. A `tm` has the fields that they read; a year before 1900 is not described. Reading
-- a table outside its bounds has no result.
use cppsp_ng.Base.{
  ℕ, ◌+◌, ◌*◌, ◌/◌, ◌%◌, ◌^◌, Option, none, some, List, [], ◌∷◌, ◌++◌, bit_and, bit_or, get_elem?,
  take,
}
use cppsp_ng.Base.Bytes.{Bytes, codes}
use cppsp_ng.Base.Cursor.{Cursor, put, write}
use cppsp_ng.Decimal.Defs.{itoa1, itoa2}
use cppsp_ng.Date.Words.{s4, en, ctw, shl, itoa4, store32}

pub record Tm : Type 0 where
  pub sec : ℕ
  pub min : ℕ
  pub hour : ℕ
  pub mday : ℕ
  pub mon : ℕ
  pub year : ℕ
  pub wday : ℕ

infixl 5 ◌>>=◌
abbrev pub ◌>>=◌ {ℓ κ} : {A : Type ℓ} {B : Type κ} → Option A → (A → Option B) → Option B
none >>= f = none
some a >>= f = f a

abbrev pub day_of_week : List Bytes
day_of_week =
    codes "Sun,"
    ∷ codes "Mon,"
    ∷ codes "Tue,"
    ∷ codes "Wed,"
    ∷ codes "Thu,"
    ∷ codes "Fri,"
    ∷ codes "Sat,"
    ∷ []

abbrev pub ddigits : List Bytes
ddigits =
    codes " 00 "
    ∷ codes " 01 "
    ∷ codes " 02 "
    ∷ codes " 03 "
    ∷ codes " 04 "
    ∷ codes " 05 "
    ∷ codes " 06 "
    ∷ codes " 07 "
    ∷ codes " 08 "
    ∷ codes " 09 "
    ∷ codes " 10 "
    ∷ codes " 11 "
    ∷ codes " 12 "
    ∷ codes " 13 "
    ∷ codes " 14 "
    ∷ codes " 15 "
    ∷ codes " 16 "
    ∷ codes " 17 "
    ∷ codes " 18 "
    ∷ codes " 19 "
    ∷ codes " 20 "
    ∷ codes " 21 "
    ∷ codes " 22 "
    ∷ codes " 23 "
    ∷ codes " 24 "
    ∷ codes " 25 "
    ∷ codes " 26 "
    ∷ codes " 27 "
    ∷ codes " 28 "
    ∷ codes " 29 "
    ∷ codes " 30 "
    ∷ codes " 31 "
    ∷ codes " 32 "
    ∷ codes " 33 "
    ∷ codes " 34 "
    ∷ codes " 35 "
    ∷ codes " 36 "
    ∷ codes " 37 "
    ∷ codes " 38 "
    ∷ codes " 39 "
    ∷ codes " 40 "
    ∷ codes " 41 "
    ∷ codes " 42 "
    ∷ codes " 43 "
    ∷ codes " 44 "
    ∷ codes " 45 "
    ∷ codes " 46 "
    ∷ codes " 47 "
    ∷ codes " 48 "
    ∷ codes " 49 "
    ∷ codes " 50 "
    ∷ codes " 51 "
    ∷ codes " 52 "
    ∷ codes " 53 "
    ∷ codes " 54 "
    ∷ codes " 55 "
    ∷ codes " 56 "
    ∷ codes " 57 "
    ∷ codes " 58 "
    ∷ codes " 59 "
    ∷ []

abbrev pub month_words : List Bytes
month_words =
    codes "Jan "
    ∷ codes "Feb "
    ∷ codes "Mar "
    ∷ codes "Apr "
    ∷ codes "May "
    ∷ codes "Jun "
    ∷ codes "Jul "
    ∷ codes "Aug "
    ∷ codes "Sep "
    ∷ codes "Oct "
    ∷ codes "Nov "
    ∷ codes "Dec "
    ∷ []

-- A word of a table.
unfoldable pub word : List Bytes → ℕ → Option ℕ
unfolding s4
word words i = get_elem? words i >>= λ str. some (s4 str)

unfoldable pub hour_word : ℕ → ℕ
unfolding en
hour_word digits = bit_or (bit_and digits (en 0xffffff00)) (en b':')

unfoldable pub min_word : ℕ → ℕ → ℕ
unfolding en ctw shl
min_word digits sec =
    bit_or (bit_or (bit_and (shl digits 1) (en 0xffff0000)) (en (b':' * 2 ^ 8)))
      (ctw (sec / 10 + b'0') 0)

unfoldable pub sec_word : ℕ → ℕ
unfolding en ctw s4
sec_word sec = bit_or (ctw (sec % 10 + b'0') 3) (s4 (codes "  GM") % en 0x00ffffff)

-- The number that is returned, and the string behind the call.
unfoldable pub rfctime2 : Tm → Bytes → Option (ℕ × Bytes)
rfctime2 time out = do
  day ← word day_of_week time.wday
  date ← word ddigits time.mday
  month ← word month_words time.mon
  hour ← word ddigits time.hour
  min ← word ddigits time.min
  let buf =
      store32 day
      ++ (store32 date
          ++ (store32 month
              ++ (store32 (itoa4 (time.year + 1900))
                  ++ (store32 (hour_word hour)
                      ++ (store32 (min_word min time.sec)
                          ++ (store32 (sec_word time.sec)
                              ++ store32 (s4 (codes "T" ++ 0 ∷ 0 ∷ 0 ∷ []))))))))
  some (29, out ++ take 29 buf)

-- The header that `Worker::timerCB` makes of the time.
unfoldable pub date_line : Tm → Option Bytes
unfolding rfctime2
date_line time = do (n, date) ← rfctime2 time (codes "Date: "); some (date ++ codes "\r\n")

abbrev pub days : List Bytes
days =
    codes "Sun"
    ∷ codes "Mon"
    ∷ codes "Tue"
    ∷ codes "Wed"
    ∷ codes "Thu"
    ∷ codes "Fri"
    ∷ codes "Sat"
    ∷ []

abbrev pub months : List Bytes
months =
    codes "Jan"
    ∷ codes "Feb"
    ∷ codes "Mar"
    ∷ codes "Apr"
    ∷ codes "May"
    ∷ codes "Jun"
    ∷ codes "Jul"
    ∷ codes "Aug"
    ∷ codes "Sep"
    ∷ codes "Oct"
    ∷ codes "Nov"
    ∷ codes "Dec"
    ∷ []

-- The four bytes of the day, the last of which is the 0 byte of the literal with the comma put in.
unfoldable pub day_word : Bytes → ℕ
unfolding s4
day_word day = bit_or (s4 (day ++ 0 ∷ [])) (b',' * 2 ^ 24)

-- The cursor behind the last byte, which is a 0 byte; the number that is returned is one less than it has
-- moved.
unfoldable pub rfctime : (ℕ → ℕ) → Tm → Cursor → Option Cursor
rfctime log10 time c = do
  day ← get_elem? days time.wday
  month ← get_elem? months time.mon
  date ← itoa1 log10 time.mday (put 32 (write (store32 (day_word day)) c))
  year ← itoa1 log10 (time.year + 1900) (put 32 (write month (put 32 date)))
  let hour = put b':' (itoa2 time.hour 2 (put 32 year))
  let min = put b':' (itoa2 time.min 2 hour)
  some (put 0 (put b'T' (put b'M' (put b'G' (put 32 (itoa2 time.sec 2 min))))))
