-- ===== src/Split/Options.antt =====
-- `optionParser::read` of include/cppsp-ng/split.H on each kind of text that it can meet.
use cppsp_ng.Base.{
  ℕ, suc, ◌<◌, ◌≡◌, ◌≢◌, get_or, refl, ap, inl, inr, true, false, Option, none, some, [], ◌∷◌, ◌++◌,
  ◌==◌, Bool-cases, drop, length, take-append_self, drop-append_suc, length-drop, arith,
}
use cppsp_ng.Base.Bytes.{Bytes}
use cppsp_ng.Base.Search.{Lacks, memchr, memchr-cases, memchr-append, memchr-Lacks}
use cppsp_ng.Split.Defs.{
  OptionParser, ReadResult, returned, unterminated_quote, skip_delim, read_option,
}

abbrev quote : ℕ
quote = b'"'

abbrev pub at : Bytes → Bytes → ℕ → OptionParser
at s v d = record { rest = some s; value = v; delim = d }

-- A quoted option is read without its quotes, whatever stands between them but a quote: also the
-- delimiter. Behind the closing quote one delimiter is skipped, if there is one.
pub read_option_quoted :
    (v rest old : Bytes) (d : ℕ)
    → Lacks b'"' v
    → read_option (at (b'"' ∷ (v ++ b'"' ∷ rest)) old d)
      ≡ returned true (at (skip_delim d rest) v d)
unfolding read_option
read_option_quoted v rest old d h =
    rw (
      memchr-append quote v rest h,
      take-append_self v (quote ∷ rest),
      drop-append_suc v quote rest,
    )

-- An option that begins with no quote ends before the first delimiter, or with the text.
pub read_option_plain :
    (c : ℕ) (v rest old : Bytes) (d : ℕ)
    → c ≢ b'"'
    → Lacks d (c ∷ v)
    → (read_option (at (c ∷ (v ++ d ∷ rest)) old d) ≡ returned true (at rest (c ∷ v) d))
      × (read_option (at (c ∷ v) old d)
          ≡ returned true (record { rest = none; value = c ∷ v; delim = d }))
unfolding read_option
read_option_plain c v rest old d h lacks =
    let other : (c == quote) ≡ false = ground arith in
    (
      rw (
        other,
        memchr-append d (c ∷ v) rest lacks,
        take-append_self (c ∷ v) (d ∷ rest),
        drop-append_suc (c ∷ v) d rest,
      ),
      rw (other, memchr-Lacks d (c ∷ v) lacks),
    )

unterminated_first :
    (s old : Bytes) (d : ℕ)
    → Lacks quote s
    → read_option (at (quote ∷ s) old d)
      ≡ unterminated_quote (record { rest = none; value = old; delim = d })
unfolding read_option
unterminated_first s old d h = rw (memchr-Lacks quote s h)

-- What is left of an option parser's text.
abbrev pub left : Option Bytes → ℕ
left none = 0
left (some s) = suc (length s)

-- A quote, and no second one.
abbrev pub OpenQuote : Bytes → Type 0
OpenQuote s = (t : Bytes) × (s ≡ b'"' ∷ t) × Lacks b'"' t

-- The outcome of a call on a text that is not at its end: it throws, and then the text is a quote
-- with no second one; or it returns true, then the text is not so, and what is left is shorter.
abbrev pub Outcome : Bytes → ReadResult → Type 0
Outcome s (returned more p) = (more ≡ true) × (left p.rest < suc (length s)) × (¬ OpenQuote s)
Outcome s (unterminated_quote p) = OpenQuote s

not_quote : (c : ℕ) (s : Bytes) → (c == quote) ≡ false → ¬ OpenQuote (c ∷ s)
not_quote c s miss (t, e, h) = absurd (cons_ne c s t (ground arith) e)
  where
    cons_ne : (x : ℕ) (xs ys : Bytes) → x ≢ quote → x ∷ xs ≢ quote ∷ ys
    cons_ne x xs ys ne e = ne (ap (λ (zs : Bytes). get_or zs 0 0) e)

closing_quote : (c i : ℕ) (s : Bytes) → memchr quote s ≡ some i → ¬ OpenQuote (c ∷ s)
closing_quote c i s f (t, e, h) =
    let same : s ≡ t = ap (λ (zs : Bytes). drop 1 zs) e in
    let no : memchr quote s ≡ none = rw same (memchr-Lacks quote t h) in absurd (cc (f, no))

length-skip_delim-le : (d : ℕ) (s : Bytes) → length (skip_delim d s) < suc (length s)
unfolding skip_delim
length-skip_delim-le d [] = omega arith
length-skip_delim-le d (c ∷ s) = ground arith

-- Each call on a text with bytes left either throws, exactly if the text is a quote with no second one, or returns true
-- and leaves less than it found: so a loop of calls ends.
pub read_option-Outcome :
    (c : ℕ) (s old : Bytes) (d : ℕ) → Outcome (c ∷ s) (read_option (at (c ∷ s) old d))
unfolding read_option
read_option-Outcome c s old d = elim (Bool-cases (c == quote)) [
  | inl hit ↦ elim (memchr-cases quote s) [
    | inl (e, h) ↦ rw (hit, e) (s, ap (λ (x : ℕ). x ∷ s) (ground arith), h)
    | inr (i, e, f) ↦
        rw (hit, e)
          (
            refl,
            omega
                (arith, length-skip_delim-le d (drop (suc i) s), length-drop (suc i) s, f.in_range),
            closing_quote c i s e,
          )
  ]
  | inr miss ↦ elim (memchr-cases d (c ∷ s)) [
    | inl (e, h) ↦ rw (miss, e) (refl, omega arith, not_quote c s miss)
    | inr (i, e, f) ↦ rw (miss, e) (refl, omega (arith, length-drop i s), not_quote c s miss)
  ]
]
