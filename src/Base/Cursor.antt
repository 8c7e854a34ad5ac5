-- ===== src/Base/Cursor.antt =====
-- Text that is written into memory from left to right: a pointer into a buffer, with the buffer.
use cppsp_ng.Base.{
  ℕ, zero, suc, ◌+◌, ◌≤◌, ◌<◌, ◌≡◌, ◌≢◌, refl, sym, ap, ◌∙◌, [], ◌∷◌, ◌++◌, length, length-append,
  cons-eq, arith,
}
use cppsp_ng.Base.Bytes.{Bytes}
use cppsp_ng.Base.Memory.{Memory, span, poke}
use cppsp_ng.Base.Find.{span-eq}

pub record Cursor : Type 0 where
  pub mem : Memory
  pub at : ℕ

-- `*(c++) = b`, and such writes one after the other, as in a `memcpy`.
unfoldable pub put : ℕ → Cursor → Cursor
put b c = record { mem = poke c.mem c.at b; at = c.at + 1 }

unfoldable pub write : Bytes → Cursor → Cursor
unfolding put
write [] c = c
write (b ∷ bs) c = write bs (put b c)

-- From `c` to `d` the text has been written, and nothing before it has changed.
pub record Wrote (c : Cursor) (text : Bytes) (d : Cursor) : Type 0 where
  pub at_eq : d.at ≡ c.at + length text
  pub text_eq : span d.mem c.at (length text) ≡ text
  pub below : (j : ℕ) → j < c.at → d.mem j ≡ c.mem j

pub span-add : (mem : Memory) (b m n : ℕ) → span mem b (m + n) ≡ span mem b m ++ span mem (b + m) n
span-add mem b zero n =
    ap (λ (k : ℕ). span mem b k) (omega arith) ∙ ap (λ (a : ℕ). span mem a n) (omega arith)
span-add mem b (suc m) n =
    ap (λ (k : ℕ). span mem b k) (let e : suc m + n ≡ suc (m + n) = omega arith in e)
    ∙ cons-eq refl (
        span-add mem (suc b) m n ∙ ap (λ (a : ℕ). span mem (suc b) m ++ span mem a n) (omega arith))

pub Wrote-nil : (c : Cursor) → Wrote c [] c
Wrote-nil c = record { at_eq = omega arith; text_eq = refl; below = λ j h. refl }

pub Wrote-append : {c d e : Cursor} (s t : Bytes) → Wrote c s d → Wrote d t e → Wrote c (s ++ t) e
Wrote-append {c} {d} {e} s t v w = record {
  at_eq = omega (arith, v.at_eq, w.at_eq, length-append s t);
  text_eq =
      ap (λ (k : ℕ). span e.mem c.at k) (length-append s t)
      ∙ span-add e.mem c.at (length s) (length t)
      ∙ ap (λ (x : Bytes). x ++ span e.mem (c.at + length s) (length t))
          (span-eq e.mem d.mem c.at c.at (length s)
              (λ i h. w.below (c.at + i) (omega (arith, v.at_eq)))
            ∙ v.text_eq)
      ∙ ap (λ (a : ℕ). s ++ span e.mem a (length t)) (sym v.at_eq)
      ∙ ap (λ (x : Bytes). s ++ x) w.text_eq;
  below = λ j h. w.below j (omega (arith, v.at_eq)) ∙ v.below j h;
}

pub poke_at : (mem : Memory) (a b j : ℕ) → j ≡ a → poke mem a b j ≡ b
unfolding poke
poke_at mem a b j h = ground arith

pub poke_else : (mem : Memory) (a b j : ℕ) → j ≢ a → poke mem a b j ≡ mem j
unfolding poke
poke_else mem a b j h = ground arith

pub put-Wrote : (b : ℕ) (c : Cursor) → Wrote c (b ∷ []) (put b c)
unfolding put
put-Wrote b c = record {
  at_eq = omega arith;
  text_eq = cons-eq (poke_at c.mem c.at b c.at refl) refl;
  below = λ j h. poke_else c.mem c.at b j (λ e. omega arith);
}

-- One more byte.
pub Wrote-put : {c d : Cursor} (s : Bytes) (b : ℕ) → Wrote c s d → Wrote c (s ++ b ∷ []) (put b d)
Wrote-put {d} s b w = Wrote-append s (b ∷ []) w (put-Wrote b d)

pub write-Wrote : (bs : Bytes) (c : Cursor) → Wrote c bs (write bs c)
unfolding write
write-Wrote [] c = Wrote-nil c
write-Wrote (b ∷ bs) c = Wrote-append (b ∷ []) bs (put-Wrote b c) (write-Wrote bs (put b c))

-- A write leaves what lies behind it.
pub write_above :
    (bs : Bytes) (c : Cursor) (j : ℕ) → c.at + length bs ≤ j → (write bs c).mem j ≡ c.mem j
unfolding write put
write_above [] c j h = refl
write_above (b ∷ bs) c j h =
    write_above bs (put b c) j (omega arith) ∙ poke_else c.mem c.at b j (λ e. omega arith)

-- The same, and nothing behind it has changed.
pub record Only (c : Cursor) (text : Bytes) (d : Cursor) : Type 0 where
  pub wrote : Wrote c text d
  pub above : (j : ℕ) → d.at ≤ j → d.mem j ≡ c.mem j

pub Only-append : {c d e : Cursor} (s t : Bytes) → Only c s d → Only d t e → Only c (s ++ t) e
Only-append s t v w = record {
  wrote = Wrote-append s t v.wrote w.wrote;
  above = λ j h. w.above j h ∙ v.above j (omega (arith, w.wrote.at_eq));
}

pub write-Only : (bs : Bytes) (c : Cursor) → Only c bs (write bs c)
write-Only bs c = record {
  wrote = write-Wrote bs c;
  above = λ j h. write_above bs c j (omega (arith, (write-Wrote bs c).at_eq));
}

pub Only-put : {c d : Cursor} (s : Bytes) (b : ℕ) → Only c s d → Only c (s ++ b ∷ []) (put b d)
Only-put {d} s b w = Only-append s (b ∷ []) w (unfold write in write-Only (b ∷ []) d)
