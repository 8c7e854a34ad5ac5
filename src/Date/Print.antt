-- ===== src/Date/Print.antt =====
-- `rfctime2` writes the date.
use cppsp_ng.Base.{
  ℕ, ◌+◌, ◌/◌, ◌%◌, ◌<◌, ◌≡◌, refl, ap, ◌∙◌, Bool, true, false, Option, none, some, [], ◌∷◌, ◌++◌,
  get_or, take, cons-eq, append_assoc, arith,
}
use cppsp_ng.Base.Bytes.{Bytes, codes, holds_below, holds_below-lt}
use cppsp_ng.Base.Equal.{equal, equal_sound}
use cppsp_ng.Decimal.Digits.{digits}
use cppsp_ng.Date.Words.{s4, itoa4, store32}
use cppsp_ng.Date.Defs.{
  Tm, ◌>>=◌, day_of_week, ddigits, month_words, word, hour_word, min_word, sec_word, rfctime2,
  date_line, days, months,
}
use cppsp_ng.Date.Text.{InRange, date_text}

-- A word of a table, after `f`, holds the text.
abbrev holds : Option ℕ → (ℕ → ℕ) → Bytes → Bool
holds none f t = false
holds (some w) f t = equal (store32 (f w)) t

holds_word :
    (o : Option ℕ) (f : ℕ → ℕ) (t : Bytes)
    → holds o f t ≡ true
    → (w : ℕ) × (o ≡ some w) × (store32 (f w) ≡ t)
holds_word none f t e = absurd (cc e)
holds_word (some w) f t e = (w, refl, equal_sound _ t e)

day_table :
    holds_below (λ i. holds (word day_of_week i) (λ w. w) (get_or days i [] ++ b',' ∷ [])) 7 ≡ true
unfolding holds_below word store32 equal
day_table = refl

date_table :
    holds_below (λ i. holds (word ddigits i) (λ w. w) (32 ∷ (digits 2 i ++ 32 ∷ []))) 32 ≡ true
unfolding holds_below word store32 equal digits
date_table = refl

month_table :
    holds_below (λ i. holds (word month_words i) (λ w. w) (get_or months i [] ++ 32 ∷ [])) 12 ≡ true
unfolding holds_below word store32 equal
month_table = refl

year_table : holds_below (λ i. equal (store32 (itoa4 i)) (digits 4 i)) 10000 ≡ true
unfolding holds_below store32 equal itoa4 digits
year_table = refl

hour_table :
    holds_below (λ i. holds (word ddigits i) hour_word (32 ∷ (digits 2 i ++ b':' ∷ []))) 24 ≡ true
unfolding holds_below word store32 equal digits hour_word
hour_table = refl

min_table :
    holds_below
      (λ s.
        holds_below
          (λ i.
            holds (word ddigits i) (λ w. min_word w s) (digits 2 i ++ b':' ∷ (b'0' + s / 10) ∷ []))
          60)
      61
    ≡ true
unfolding holds_below word store32 equal digits min_word
min_table = refl

sec_table :
    holds_below (λ s. equal (store32 (sec_word s)) ((b'0' + s % 10) ∷ codes " GM")) 61 ≡ true
unfolding holds_below store32 equal sec_word
sec_table = refl

pub digits-two : (s : ℕ) → s < 100 → digits 2 s ≡ (b'0' + s / 10) ∷ (b'0' + s % 10) ∷ []
unfolding digits
digits-two s h = cons-eq (omega arith) refl

take_words :
    (a b c d e f g : ℕ)
    → take 29 (
        store32 a
        ++ (store32 b
            ++ (store32 c
                ++ (store32 d
                    ++ (store32 e
                        ++ (store32 f
                            ++ (store32 g ++ store32 (s4 (codes "T" ++ 0 ∷ 0 ∷ 0 ∷ [])))))))))
      ≡ store32 a
        ++ (store32 b
            ++ (store32 c ++ (store32 d ++ (store32 e ++ (store32 f ++ (store32 g ++ codes "T"))))))
unfolding store32 s4
take_words a b c d e f g = refl

-- For a time in range `rfctime2` appends the date as HTTP writes it, `Sun, 06 Nov 1994 08:49:37 GMT`, and
-- returns its length, 29.
pub rfctime2_lem :
    (t : Tm) (out : Bytes) → InRange t → rfctime2 t out ≡ some (29, out ++ date_text t)
unfolding rfctime2 date_text
rfctime2_lem t out r =
    let (day, e_day, t_day) = holds_word _ _ _ (holds_below-lt _ 7 t.wday r.wday_lt day_table) in
    let (date, e_date, t_date) =
      holds_word _ _ _ (holds_below-lt _ 32 t.mday r.mday_lt date_table) in
    let (month, e_month, t_month) =
      holds_word _ _ _ (holds_below-lt _ 12 t.mon r.mon_lt month_table) in
    let (hour, e_hour, t_hour) =
      holds_word _ _ _ (holds_below-lt _ 24 t.hour r.hour_lt hour_table) in
    let (min, e_min, t_min) = holds_word _ _ _ (
      holds_below-lt _ 60 t.min r.min_lt
        (holds_below-lt _ 61 t.sec (omega (arith, r.sec_lt)) min_table)) in
    let t_year = equal_sound _ _ (holds_below-lt _ 10000 (t.year + 1900) r.year_lt year_table) in
    let t_sec = equal_sound _ _ (holds_below-lt _ 61 t.sec (omega (arith, r.sec_lt)) sec_table) in
    rw (e_day, e_date, e_month, e_hour, e_min)
      (ap (λ (s : Bytes). some (29, out ++ s))
        (take_words day date month (itoa4 (t.year + 1900)) (hour_word hour) (min_word min t.sec)
            (sec_word t.sec)
          ∙ rw
              (
                t_day,
                t_date,
                t_month,
                t_year,
                t_hour,
                t_min,
                t_sec,
                digits-two t.sec (omega (arith, r.sec_lt)),
              )
              (simp append_assoc)))

-- The line that goes into every reply, for a time in range.
pub date_line_lem :
    (t : Tm) → InRange t → date_line t ≡ some ((codes "Date: " ++ date_text t) ++ codes "\r\n")
unfolding date_line
date_line_lem t r =
    ap (λ (o : Option (ℕ × Bytes)). o >>= λ p. some (p.1 ++ codes "\r\n"))
      (rfctime2_lem t (codes "Date: ") r)
