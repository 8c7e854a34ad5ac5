-- ===== src/Date/Agree.antt =====
-- `rfctime` writes the date as well, from the tenth day of a month on.
use mathlib.Core.Path.{subst}
use cppsp_ng.Base.{
  ℕ, zero, suc, ◌+◌, ◌-◌, ◌≤◌, ◌<◌, ◌≡◌, refl, ap, inl, inr, Bool, true, false, Option, none, some,
  List, [], ◌∷◌, ◌++◌, get_elem?, length-append, ==_iff, get_or, ltb, ◌==◌, if◌then◌else◌,
  Bool-cases, length, append_assoc, arith,
}
use cppsp_ng.Base.Bytes.{Bytes, holds_below, holds_below-lt}
use cppsp_ng.Base.Equal.{equal, equal_sound}
use cppsp_ng.Base.Cursor.{Cursor, put, write, Wrote, Wrote-append, Wrote-put, write-Wrote}
use cppsp_ng.Decimal.Defs.{itoa2}
use cppsp_ng.Decimal.Digits.{
  digits, decimal, IsLog, itoa1-Wrote, itoa2-Wrote, digit_count_lem, length-digits,
}
use cppsp_ng.Date.Words.{store32}
use cppsp_ng.Date.Defs.{Tm, rfctime, rfctime2, days, months, day_word}
use cppsp_ng.Date.Print.{rfctime2_lem}
use cppsp_ng.Date.Text.{InRange, date_text, rest_text}

-- The words of the days.
abbrev day_holds : Option Bytes → Bytes → Bool
day_holds none t = false
day_holds (some day) t = equal (store32 (day_word day)) t

day_table : holds_below (λ i. day_holds (get_elem? days i) (get_or days i [] ++ b',' ∷ [])) 7 ≡ true
unfolding holds_below day_word store32 equal
day_table = refl

day_lem :
    (o : Option Bytes) (t : Bytes)
    → day_holds o t ≡ true
    → (day : Bytes) × (o ≡ some day) × (store32 (day_word day) ≡ t)
day_lem none t e = absurd (cc e)
day_lem (some day) t e = (day, refl, equal_sound _ t e)

get_elem?-get_or :
    {A : Type 0} (xs : List A) (i : ℕ) (d : A)
    → i < length xs
    → get_elem? xs i ≡ some (get_or xs i d)
get_elem?-get_or [] i d h = absurd (omega arith)
get_elem?-get_or (x ∷ xs) zero d h = refl
get_elem?-get_or (x ∷ xs) (suc i) d h = get_elem?-get_or xs i d (omega arith)

length_days : holds_below (λ i. length (get_or days i []) == 3) 7 ≡ true
unfolding holds_below
length_days = refl

length_months : holds_below (λ i. length (get_or months i []) == 3) 12 ≡ true
unfolding holds_below
length_months = refl

length-date_text : (t : Tm) → InRange t → length (date_text t) ≡ 29
unfolding date_text
length-date_text t r =
    let day =
      (==_iff (length (get_or days t.wday [])) 3).0
        (holds_below-lt _ 7 t.wday r.wday_lt length_days) in
    let month =
      (==_iff (length (get_or months t.mon [])) 3).0
        (holds_below-lt _ 12 t.mon r.mon_lt length_months) in
    simp (length-append, length-digits) (omega (arith, day, month))

-- How many digits the day of the month gets: one, if that is enough.
abbrev pub day_width : ℕ → ℕ
day_width mday = if ltb mday 10 then 1 else 2

module _ (log10 : ℕ → ℕ) (log : IsLog log10 10000) where
  day_digits : (mday : ℕ) → 0 < mday → mday < 32 → decimal log10 mday ≡ digits (day_width mday) mday
  day_digits mday pos lt = elim (Bool-cases (ltb mday 10)) [
    | inl one ↦ rw one (
        ap (λ (k : ℕ). digits k mday)
          (digit_count_lem mday 0 log pos (omega arith) (omega arith) (ground arith)))
    | inr two ↦ rw two (
        ap (λ (k : ℕ). digits k mday)
          (digit_count_lem mday 1 log pos (omega arith) (ground arith) (omega arith)))
  ]

  year_digits : (y : ℕ) → 1000 ≤ y → y < 10000 → decimal log10 y ≡ digits 4 y
  year_digits y lo hi =
      ap (λ (k : ℕ). digits k y)
        (digit_count_lem y 3 log (omega arith) hi (omega arith) (omega arith))

  -- For a time in range `rfctime` ends. It writes the date as HTTP does, but with one digit for the first
  -- nine days of a month, and a 0 byte behind it; nothing before it changes.
  pub rfctime_lem :
      (t : Tm) (c : Cursor)
      → InRange t
      → 0 < t.mday
      → (d : Cursor) × (rfctime log10 t c ≡ some d)
        × Wrote c
            (get_or days t.wday []
              ++ (b',' ∷ 32 ∷ (digits (day_width t.mday) t.mday ++ (rest_text t ++ 0 ∷ []))))
            d
  unfolding rfctime rest_text
  rfctime_lem t c r pos =
      let (day, e_day, t_day) = day_lem _ _ (holds_below-lt _ 7 t.wday r.wday_lt day_table) in
      let e_month = get_elem?-get_or months t.mon [] r.mon_lt in
      let month = get_or months t.mon [] in
      let w1 = Wrote-put _ 32 (write-Wrote (store32 (day_word day)) c) in
      let (date, e_date, v_date) =
        itoa1-Wrote log10 10000 log t.mday (put 32 (write (store32 (day_word day)) c))
          (omega (arith, r.mday_lt)) in
      let w2 = Wrote-put _ 32 (Wrote-append _ _ w1 v_date) in
      let w3 = Wrote-put _ 32 (Wrote-append _ _ w2 (write-Wrote month (put 32 date))) in
      let (year, e_year, v_year) =
        itoa1-Wrote log10 10000 log (t.year + 1900) (put 32 (write month (put 32 date)))
          r.year_lt in
      let w4 = Wrote-put _ 32 (Wrote-append _ _ w3 v_year) in
      let hour = put b':' (itoa2 t.hour 2 (put 32 year)) in
      let w5 = Wrote-put _ b':' (Wrote-append _ _ w4 (itoa2-Wrote t.hour 2 (put 32 year))) in
      let min = put b':' (itoa2 t.min 2 hour) in
      let w6 = Wrote-put _ b':' (Wrote-append _ _ w5 (itoa2-Wrote t.min 2 hour)) in
      let w7 = Wrote-put _ 32 (Wrote-append _ _ w6 (itoa2-Wrote t.sec 2 min)) in
      let w = Wrote-put _ 0 (Wrote-put _ b'T' (Wrote-put _ b'M' (Wrote-put _ b'G' w7))) in
      let end = put 0 (put b'T' (put b'M' (put b'G' (put 32 (itoa2 t.sec 2 min))))) in
      (
        end,
        rw (e_day, e_month, e_date, e_year) refl,
        subst (λ (s : Bytes). Wrote c s end)
            (rw
              (
                t_day,
                day_digits t.mday pos r.mday_lt,
                year_digits (t.year + 1900) (omega arith) r.year_lt,
              )
              (simp append_assoc))
            w,
      )

  -- From the tenth day of a month on the two functions agree: `rfctime` writes the text that `rfctime2`
  -- appends to an empty string, a 0 byte behind it, and the number that it returns, one less than it has
  -- moved, is the one that `rfctime2` returns.
  pub rfctime-rfctime2 :
      (t : Tm) (c : Cursor)
      → InRange t
      → 10 ≤ t.mday
      → (d : Cursor) × (n : ℕ) × (s : Bytes) × (rfctime2 t [] ≡ some (n, s))
        × (rfctime log10 t c ≡ some d)
        × Wrote c (s ++ 0 ∷ []) d
        × (d.at - c.at - 1 ≡ n)
  rfctime-rfctime2 t c r ten =
      let (d, e, w) = rfctime_lem t c r (omega arith) in
      let two : ltb t.mday 10 ≡ false = ground arith in
      let same : get_or days t.wday []
            ++ (b',' ∷ 32 ∷ (digits (day_width t.mday) t.mday ++ (rest_text t ++ 0 ∷ [])))
          ≡ date_text t ++ 0 ∷ [] =
        unfold date_text in rw two (simp append_assoc) in
      let v = subst (λ (s : Bytes). Wrote c s d) same w in
      (
        d,
        29,
        date_text t,
        rfctime2_lem t [] r,
        e,
        v,
        omega (arith, v.at_eq, length-append (date_text t) (0 ∷ []), length-date_text t r),
      )
