-- ===== src/Split/Fields.antt =====
-- The values of `split` against a recursive description of the fields of a text.
use cppsp_ng.Base.{
  ℕ, zero, suc, ◌+◌, ◌<◌, ◌≡◌, ◌≢◌, refl, sym, ap, ◌∙◌, ◌⊎◌, inl, inr, true, false, none, some,
  List, [], ◌∷◌, ◌++◌, ◌==◌, if◌then◌else◌, Bool-cases, take, drop, length, length-drop, arith,
}
use cppsp_ng.Base.Bytes.{Bytes, All}
use cppsp_ng.Base.Search.{Lacks, memchr, FoundAt, memchr-cases}
use cppsp_ng.Split.Defs.{split, push, read_all}

-- The fields of a text, each ended by the delimiter, but the last one perhaps by the end.
pub grow : ℕ → List Bytes → List Bytes
grow c [] = (c ∷ []) ∷ []
grow c (v ∷ vs) = (c ∷ v) ∷ vs

unfoldable pub fields : ℕ → Bytes → List Bytes
unfolding grow
fields delim [] = []
fields delim (c ∷ s) = if c == delim then [] ∷ fields delim s else grow c (fields delim s)

pub fields-Lacks : (d c : ℕ) (s : Bytes) → Lacks d (c ∷ s) → fields d (c ∷ s) ≡ (c ∷ s) ∷ []
unfolding fields
fields-Lacks d c [] (h, _) = ground arith
fields-Lacks d c (x ∷ s) (h, hs) = ground (arith, fields-Lacks d x s hs)

fields-append : (d : ℕ) (v rest : Bytes) → Lacks d v → fields d (v ++ d ∷ rest) ≡ v ∷ fields d rest
unfolding fields
fields-append d [] rest h = ground arith
fields-append d (c ∷ v) rest (h, hs) = ground (arith, fields-append d v rest hs)

-- The values that are left when the next call of `memchr` has been made.
module _ (fuel d : ℕ) (v : Bytes) (c : ℕ) (s : Bytes) where
  read_all_last :
      memchr d (c ∷ s) ≡ none
      → read_all (suc (suc fuel)) (record { rest = some (c ∷ s); value = v; delim = d })
        ≡ some ((c ∷ s) ∷ [])
  unfolding read_all
  read_all_last e = rw e

  read_all_next :
      (i : ℕ)
      → memchr d (c ∷ s) ≡ some i
      → read_all (suc fuel) (record { rest = some (c ∷ s); value = v; delim = d })
        ≡ push (take i (c ∷ s)) (
            read_all fuel
              (record { rest = some (drop (suc i) (c ∷ s)); value = take i (c ∷ s); delim = d }))
  unfolding read_all
  read_all_next i e = rw e

pub fields-FoundAt :
    (d : ℕ) (s : Bytes) (i : ℕ) → FoundAt d s i → fields d s ≡ take i s ∷ fields d (drop (suc i) s)
fields-FoundAt d s i f =
    ap (fields d) f.around ∙ fields-append d (take i s) (drop (suc i) s) f.first

pub read_all-from :
    (fuel d : ℕ) (v s : Bytes)
    → length s + 1 < fuel
    → read_all fuel (record { rest = some s; value = v; delim = d }) ≡ some (fields d s)
read_all-from zero d v s h = absurd (omega arith)
read_all-from (suc fuel) d v [] h = unfold fields read_all in refl
read_all-from (suc zero) d v (c ∷ s) h = absurd (omega arith)
read_all-from (suc (suc fuel)) d v (c ∷ s) h = elim (memchr-cases d (c ∷ s)) [
  | inl (e, lacks) ↦ read_all_last fuel d v c s e ∙ ap some (sym (fields-Lacks d c s lacks))
  | inr (i, e, found) ↦
      read_all_next (suc fuel) d v c s i e
      ∙ ap (push (take i (c ∷ s))) (
          read_all-from (suc fuel) d (take i (c ∷ s)) (drop (suc i) (c ∷ s))
            (omega (arith, length-drop (suc i) (c ∷ s))))
      ∙ ap some (sym (fields-FoundAt d (c ∷ s) i found))
]

-- A loop of `read` calls over any text ends within two calls more than the text has bytes, and the
-- values that it sees are the fields of the text.
pub read_all-fields : (d : ℕ) (s : Bytes) → read_all (length s + 2) (split s d) ≡ some (fields d s)
read_all-fields d s = read_all-from (length s + 2) d [] s (omega arith)

-- Text that is put together from values without the delimiter, each followed by it.
pub terminated : ℕ → List Bytes → Bytes
terminated d [] = []
terminated d (v ∷ vs) = v ++ d ∷ terminated d vs

-- The fields of values that are each followed by the delimiter are those values.
pub fields-terminated :
    (d : ℕ) (vs : List Bytes) → All (Lacks d) vs → fields d (terminated d vs) ≡ vs
unfolding terminated
fields-terminated d [] h = unfold fields in refl
fields-terminated d (v ∷ vs) (h, hs) =
    fields-append d v (terminated d vs) h
    ∙ ap (λ (ws : List Bytes). v ∷ ws) (fields-terminated d vs hs)

All-grow : (d c : ℕ) (vs : List Bytes) → c ≢ d → All (Lacks d) vs → All (Lacks d) (grow c vs)
unfolding grow
All-grow d c [] h hs = ((h, tt), tt)
All-grow d c (v ∷ vs) h (hv, hs) = ((h, hv), hs)

pub fields-All : (d : ℕ) (s : Bytes) → All (Lacks d) (fields d s)
unfolding fields
fields-All d [] = tt
fields-All d (c ∷ s) = elim (Bool-cases (c == d)) [
  | inl e ↦ rw e (tt, fields-All d s)
  | inr e ↦ rw e (All-grow d c (fields d s) (ground arith) (fields-All d s))
]

terminated-grow :
    (d c : ℕ) (s : Bytes) (vs : List Bytes)
    → (terminated d vs ≡ s) ⊎ (terminated d vs ≡ s ++ d ∷ [])
    → (terminated d (grow c vs) ≡ c ∷ s) ⊎ (terminated d (grow c vs) ≡ (c ∷ s) ++ d ∷ [])
unfolding terminated grow
terminated-grow d c s [] (inl e) = inr (rw (← e))
terminated-grow d c [] [] (inr e) = absurd (cc)
terminated-grow d c (x ∷ s) [] (inr e) = absurd (cc)
terminated-grow d c s (v ∷ vs) (inl e) = inl (ap (λ (t : Bytes). c ∷ t) e)
terminated-grow d c s (v ∷ vs) (inr e) = inr (ap (λ (t : Bytes). c ∷ t) e)

fields_delim : (d : ℕ) (s : Bytes) → fields d (d ∷ s) ≡ [] ∷ fields d s
unfolding fields
fields_delim d s = ground arith

fields_skip : (d c : ℕ) (s : Bytes) → c ≢ d → fields d (c ∷ s) ≡ grow c (fields d s)
unfolding fields
fields_skip d c s h = ground arith

terminated_empty :
    (d : ℕ) (s : Bytes) (vs : List Bytes)
    → (terminated d vs ≡ s) ⊎ (terminated d vs ≡ s ++ d ∷ [])
    → (terminated d ([] ∷ vs) ≡ d ∷ s) ⊎ (terminated d ([] ∷ vs) ≡ (d ∷ s) ++ d ∷ [])
unfolding terminated
terminated_empty d s vs (inl e) = inl (ap (λ (t : Bytes). d ∷ t) e)
terminated_empty d s vs (inr e) = inr (ap (λ (t : Bytes). d ∷ t) e)

abbrev Spells : ℕ → Bytes → List Bytes → Type 0
Spells d s vs = (terminated d vs ≡ s) ⊎ (terminated d vs ≡ s ++ d ∷ [])

-- A text is its fields, each followed by the delimiter; the last one need not be.
fields-Spells : (d : ℕ) (s : Bytes) → Spells d s (fields d s)
fields-Spells d [] = inl (unfold fields terminated in refl)
fields-Spells d (c ∷ s) = from (fields-Spells d s) (Bool-cases (c == d))
  where
    from :
        Spells d s (fields d s)
        → ((c == d) ≡ true) ⊎ ((c == d) ≡ false)
        → Spells d (c ∷ s) (fields d (c ∷ s))
    from h (inl hit) =
        let e : c ≡ d = ground arith in rw (e, fields_delim) (terminated_empty d s (fields d s) h)
    from h (inr miss) = rw (fields_skip d c s (ground arith)) (terminated-grow d c s (fields d s) h)

-- A loop of `read` calls over any text ends within two calls more than the text has bytes. None of
-- the values that it sees holds the delimiter, and the values, each followed by the delimiter, spell
-- the text, or the text with a delimiter behind it.
pub read_all-Spells :
    (d : ℕ) (s : Bytes)
    → (vs : List Bytes) × (read_all (length s + 2) (split s d) ≡ some vs)
      × All (Lacks d) vs
      × ((terminated d vs ≡ s) ⊎ (terminated d vs ≡ s ++ d ∷ []))
read_all-Spells d s = (fields d s, read_all-fields d s, fields-All d s, fields-Spells d s)

-- Reading back values without the delimiter, each followed by it, gives those values.
pub read_all-terminated :
    (d : ℕ) (vs : List Bytes)
    → All (Lacks d) vs
    → read_all (length (terminated d vs) + 2) (split (terminated d vs) d) ≡ some vs
read_all-terminated d vs h =
    read_all-fields d (terminated d vs) ∙ ap some (fields-terminated d vs h)
