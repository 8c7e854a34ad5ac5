-- ===== src/Markup/Html.antt =====
-- `htmlEscapeImpl` and `htmlAttributeEscapeImpl`: sizes, and that a browser reads the text back.
use cppsp_ng.Base.{
  ℕ, ◌+◌, ◌-◌, ◌*◌, ◌%◌, ◌^◌, ◌<◌, ◌≤◌, ltb, ◌&&◌, ◌≡◌, ◌≢◌, refl, sym, ap, ◌∙◌, inl, inr, true,
  none, some, [], ◌∷◌, ◌++◌, append-nil, append_assoc, ◌==◌, Bool-cases, Option-cases, length,
  length-append, arith,
}
use cppsp_ng.Base.Bytes.{Bytes, All, All-append}
use cppsp_ng.Url.Defs.{flush}
use cppsp_ng.Markup.Defs.{
  html_size, html_count, html_byte, html_written, html_escape, attribute_entity, attribute_loop,
  html_attribute_escape,
}
use cppsp_ng.Markup.Reader.{entities_from}

length-html_byte : (c : ℕ) → length (html_byte c) ≡ html_size c
unfolding html_byte html_size
length-html_byte c = ground arith

html_size-le : (c : ℕ) → html_size c < 6
unfolding html_size
html_size-le c = ground arith

-- The counter is exact as long as it cannot reach the modulus.
html_count-length :
    (s : Bytes) (sz : ℕ)
    → sz + 5 * length s < 2 ^ 32
    → html_count sz s ≡ sz + length (html_written s)
unfolding html_count html_written
html_count-length [] sz h = omega arith
html_count-length (c ∷ s) sz h =
    let e : (sz + html_size c) % 2 ^ 32 ≡ sz + html_size c = omega (arith, html_size-le c) in
    rw e (
      html_count-length s (sz + html_size c) (omega (arith, html_size-le c))
      ∙ omega (arith, length-append (html_byte c) (html_written s), length-html_byte c))

entities_from-html_byte :
    (c : ℕ) (r : Bytes) → entities_from none (html_byte c ++ r) ≡ c ∷ entities_from none r
unfolding html_byte entities_from
entities_from-html_byte c r = elim (Bool-cases (c == b'&')) [
  | inl amp ↦ rw amp (ground arith)
  | inr a ↦ elim (Bool-cases (c == b'<')) [
    | inl lt ↦ rw (a, lt) (ground arith)
    | inr b ↦ elim (Bool-cases (c == b'>')) [
      | inl gt ↦ rw (a, b, gt) (ground arith)
      | inr d ↦ rw (a, b, d) (rw (a, entities_from))
    ]
  ]
]

entities_from-html_written : (s : Bytes) → entities_from none (html_written s) ≡ s
unfolding html_written
entities_from-html_written [] = unfold entities_from in refl
entities_from-html_written (c ∷ s) =
    entities_from-html_byte c (html_written s)
    ∙ ap (λ (t : Bytes). c ∷ t) (entities_from-html_written s)

abbrev pub IsText : ℕ → Type 0
IsText c = (c ≢ b'<') × (c ≢ b'>')

html_byte-IsText : (c : ℕ) → All IsText (html_byte c)
unfolding html_byte
html_byte-IsText c = ground arith

html_written-IsText : (s : Bytes) → All IsText (html_written s)
unfolding html_written
html_written-IsText [] = tt
html_written-IsText (c ∷ s) =
    All-append _ (html_byte c) (html_written s) (html_byte-IsText c) (html_written-IsText s)

pub length-html_written-le : (s : Bytes) → length (html_written s) ≤ 5 * length s
unfolding html_written
length-html_written-le [] = omega arith
length-html_written-le (c ∷ s) =
    let size : length (html_byte c) ≤ 5 = unfold html_byte in ground arith in
    omega (arith, length-append (html_byte c) (html_written s), length-html_written-le s, size)

pub html_escape-written :
    (s out : Bytes)
    → length out + 5 * length s < 2 ^ 31
    → html_escape s out ≡ some (length (html_written s), out ++ html_written s)
unfolding html_escape html_written
html_escape-written s out h =
    let e : html_count 0 s ≡ length (html_written s) =
      omega (arith, html_count-length s 0 (omega arith)) in
    let full : (ltb (length out + length (html_written s)) (2 ^ 31)
          && length (html_written s) == length (html_written s))
        ≡ true =
      ground (arith, length-html_written-le s) in
    rw (html_escape, e, full) refl

-- Where the length of the output and five times that of the input stay below 2 ^ 31 together, `htmlEscapeImpl` fills exactly the bytes
-- that it reserves, and appends them to the output. They hold no `<` and no `>`, and a reader that
-- replaces entities reads the input from them.
pub html_escape_lem :
    (s out : Bytes)
    → length out + 5 * length s < 2 ^ 31
    → (t : Bytes) × (html_escape s out ≡ some (length t, out ++ t))
      × All IsText t
      × (entities_from none t ≡ s)
unfolding html_written
html_escape_lem s out h = (
  html_written s,
  html_escape-written s out h,
  html_written-IsText s,
  entities_from-html_written s,
)

-- An input byte as `htmlAttributeEscapeImpl` writes it.
unfoldable pub attribute_byte : ℕ → Bytes
attribute_byte c = elim (attribute_entity c) [ none ↦ c ∷ [] | some tmp ↦ tmp ]

unfoldable pub attribute_written : Bytes → Bytes
attribute_written [] = []
attribute_written (c ∷ s) = attribute_byte c ++ attribute_written s

flush-append : (pending out : Bytes) → flush pending out ≡ out ++ pending
flush-append [] out = sym (append-nil out)
flush-append (c ∷ s) out = refl

attribute_loop-written :
    (s pending out : Bytes) → attribute_loop s pending out ≡ out ++ (pending ++ attribute_written s)
unfolding attribute_loop attribute_written attribute_byte
attribute_loop-written [] pending out = rw (flush-append, append-nil)
attribute_loop-written (c ∷ s) pending out = elim (Option-cases (attribute_entity c)) [
  | inl e ↦
      rw (attribute_loop, attribute_byte, e, attribute_loop-written s (pending ++ c ∷ []) out)
        (simp append_assoc)
  | inr (tmp, e) ↦
      rw
        (
          attribute_loop,
          attribute_byte,
          e,
          attribute_loop-written s [] (flush pending out ++ tmp),
          flush-append,
        )
        (simp append_assoc)
]

entities_from-attribute_byte :
    (c : ℕ) (r : Bytes) → entities_from none (attribute_byte c ++ r) ≡ c ∷ entities_from none r
unfolding attribute_byte attribute_entity entities_from
entities_from-attribute_byte c r = ground arith

entities_from-attribute_written : (s : Bytes) → entities_from none (attribute_written s) ≡ s
unfolding attribute_written
entities_from-attribute_written [] = unfold entities_from in refl
entities_from-attribute_written (c ∷ s) =
    entities_from-attribute_byte c (attribute_written s)
    ∙ ap (λ (t : Bytes). c ∷ t) (entities_from-attribute_written s)

-- A byte that does not end an attribute's value, in quotes of either kind.
abbrev pub IsQuotable : ℕ → Type 0
IsQuotable c = (c ≢ b'<') × (c ≢ b'>') × (c ≢ b'"') × (c ≢ 39)

attribute_byte-IsQuotable : (c : ℕ) → All IsQuotable (attribute_byte c)
unfolding attribute_byte attribute_entity
attribute_byte-IsQuotable c = ground arith

attribute_written-IsQuotable : (s : Bytes) → All IsQuotable (attribute_written s)
unfolding attribute_written
attribute_written-IsQuotable [] = tt
attribute_written-IsQuotable (c ∷ s) =
    All-append _ (attribute_byte c) (attribute_written s) (attribute_byte-IsQuotable c)
      (attribute_written-IsQuotable s)

-- `htmlAttributeEscapeImpl` appends bytes without `<`, `>` or a quote of either kind, from which a reader
-- that replaces entities reads the input; it returns the number of these bytes.
pub html_attribute_escape_lem :
    (s out : Bytes)
    → (t : Bytes) × (html_attribute_escape s out ≡ (length t, out ++ t))
      × All IsQuotable t
      × (entities_from none t ≡ s)
unfolding html_attribute_escape attribute_written
html_attribute_escape_lem s out =
    let t = attribute_written s in
    let n : length (out ++ t) - length out ≡ length t = omega (arith, length-append out t) in
    (
      t,
      rw (html_attribute_escape, attribute_loop-written s [] out) (ap (λ (k : ℕ). (k, out ++ t)) n),
      attribute_written-IsQuotable s,
      entities_from-attribute_written s,
    )
