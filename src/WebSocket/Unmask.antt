-- ===== src/WebSocket/Unmask.antt =====
-- `unmask`: what it leaves alone, and what it makes of masked bytes.
use cppsp_ng.Base.{
  ℕ, zero, suc, ◌+◌, ◌%◌, ◌≤◌, ◌<◌, ◌≡◌, refl, ap, ◌∙◌, ◌⊎◌, inl, bit_xor, get_or, cons-eq, arith,
}
use cppsp_ng.Base.Bytes.{Bytes}
use cppsp_ng.Base.Memory.{Memory, span, poke}
use cppsp_ng.Base.Find.{span-eq}
use cppsp_ng.WebSocket.Parser.{unmask}
use cppsp_ng.WebSocket.Wire.{masked}

poke_same : (mem : Memory) (a v : ℕ) → poke mem a v a ≡ v
unfolding poke
poke_same mem a v = ground arith

poke_other : (mem : Memory) (a v i : ℕ) → (i ≡ a → ⊥) → poke mem a v i ≡ mem i
unfolding poke
poke_other mem a v i h = ground arith

pub unmask_outside :
    (mem : Memory) (key : ℕ → ℕ) (at i n j : ℕ)
    → (j < at) ⊎ (at + n ≤ j)
    → unmask mem key at i n j ≡ mem j
unfolding unmask
unmask_outside mem key at i zero j h = refl
unmask_outside mem key at i (suc n) j h =
    unmask_outside (poke mem at (bit_xor (mem at) (key (i % 4)))) key (suc at) (suc i) n j
      (omega arith)
    ∙ poke_other mem at _ j (omega arith)

pub span-unmask :
    (mem : Memory) (key : ℕ → ℕ) (bytes : Bytes) (at i n : ℕ)
    → ((j : ℕ) → j < 4 → key j ≡ get_or bytes j 0)
    → span (unmask mem key at i n) at n ≡ masked bytes i (span mem at n)
unfolding unmask masked
span-unmask mem key bytes at i zero h = refl
span-unmask mem key bytes at i (suc n) h =
    let v = bit_xor (mem at) (key (i % 4)) in
    let written = poke mem at v in
    cons-eq
      (unmask_outside written key (suc at) (suc i) n at (inl (omega arith))
        ∙ poke_same mem at v
        ∙ ap (bit_xor (mem at)) (h (i % 4) (omega arith)))
      (span-unmask written key bytes (suc at) (suc i) n h
        ∙ ap (masked bytes (suc i)) (
            span-eq written mem (suc at) (suc at) n
              (λ k lt. poke_other mem at v (suc at + k) (omega arith))))
