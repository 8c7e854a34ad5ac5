-- ===== src/Base/Below.antt =====
-- Searches read nothing outside their bounds: in memories that agree below an address they find the same there. Bytes
-- that are written from an address on leave the memory below it as it is.
use Prim.Native.Nat.{ℕ, zero, suc, ◌+◌, ◌≤◌, ◌<◌}
use mathlib.Core.Path.{◌≡◌, refl, ap, ◌∙◌, fun_ext}
use mathlib.Core.List.{[], ◌∷◌}
use mathlib.Core.Bool.{◌&&◌}
use mathlib.Core.Option.{Option, some}
use native.Mathlib.Omega.{arith}
use cppsp_ng.Base.Tests.{ltb, ◌==◌, if◌then◌else◌}
use cppsp_ng.Base.Bytes.{Bytes}
use cppsp_ng.Base.Memory.{Memory, poke, fill, find_byte, find_line_end, c_string}

abbrev pub Below : ℕ → Memory → Memory → Type 0
Below e mem' mem = (i : ℕ) → i < e → mem' i ≡ mem i

pub fill-Below : (mem : Memory) (a : ℕ) (bytes : Bytes) → Below a (fill mem a bytes) mem
unfolding fill
fill-Below mem a [] i lt = refl
fill-Below mem a (v ∷ vs) i lt =
    fill-Below (poke mem a v) (suc a) vs i (omega arith) ∙ unfold poke in ground arith

poke-poke : (mem : Memory) (k v a w : ℕ) → k < a → poke (poke mem k v) a w ≡ poke (poke mem a w) k v
unfolding poke
poke-poke mem k v a w lt = fun_ext λ i. ground arith

-- A write below them changes places with the bytes.
pub fill-poke :
    (mem : Memory) (a : ℕ) (bytes : Bytes) (k v : ℕ)
    → k < a
    → fill (poke mem k v) a bytes ≡ poke (fill mem a bytes) k v
unfolding fill
fill-poke mem a [] k v lt = refl
fill-poke mem a (w ∷ ws) k v lt =
    ap (λ (m : Memory). fill m (suc a) ws) (poke-poke mem k v a w lt)
    ∙ fill-poke (poke mem a w) (suc a) ws k v (omega arith)

module _ (e : ℕ) (mem' mem : Memory) (same : Below e mem' mem) where
  pub find_byte-Below : (c b n : ℕ) → b + n ≤ e → find_byte mem' c b n ≡ find_byte mem c b n
  unfolding find_byte
  find_byte-Below c b zero le = refl
  find_byte-Below c b (suc n) le =
      rw (same b (omega arith), find_byte-Below c (suc b) n (omega arith)) refl

  pub find_line_end-Below : (b n : ℕ) → b + n ≤ e → find_line_end mem' b n ≡ find_line_end mem b n
  unfolding find_line_end
  find_line_end-Below b zero le = refl
  find_line_end-Below b (suc zero) le = refl
  find_line_end-Below b (suc (suc n)) le =
      ap
        (λ (o : Option ℕ).
          if ltb 0 (suc n) && (mem' b == 13 && mem' (suc b) == 10) then some b else o)
        (find_line_end-Below (suc b) (suc n) (omega arith))
      ∙ rw (same b (omega arith), same (suc b) (omega arith)) refl

  pub c_string-Below : (b n : ℕ) → b + n ≤ e → c_string mem' b n ≡ c_string mem b n
  unfolding c_string
  c_string-Below b zero le = refl
  c_string-Below b (suc n) le =
      rw (same b (omega arith), c_string-Below (suc b) n (omega arith)) refl
