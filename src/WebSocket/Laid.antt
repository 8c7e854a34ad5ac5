-- ===== src/WebSocket/Laid.antt =====
-- The parts of a frame that lies in memory.
use mathlib.Core.Path.{subst}
use cppsp_ng.Base.{
  ℕ, suc, ◌+◌, ◌≡◌, refl, ap, ◌∙◌, Bool, [], ◌∷◌, ◌++◌, if◌then◌else◌, length, length-append,
  head_eq, tail_eq, arith,
}
use cppsp_ng.Base.Bytes.{Bytes}
use cppsp_ng.Base.Memory.{Memory, span}
use cppsp_ng.Base.Find.{span-split}
use cppsp_ng.WebSocket.Wire.{short_length, long_length, length-masked, under, has_key, frame_bytes}

-- The parts of a frame that lies in memory.
pub record Laid (mem : Memory) (b : ℕ) (fin : Bool) (opcode : ℕ) (key payload : Bytes)
    : Type 0 where
  pub first : mem b ≡ (if fin then 128 else 0) + opcode
  pub second : mem (b + 1) ≡ short_length (length payload) + has_key key
  pub long_at :
      span mem (b + 2) (length (long_length (length payload))) ≡ long_length (length payload)
  pub key_at : span mem (b + 2 + length (long_length (length payload))) (length key) ≡ key
  pub payload_at :
      span mem
        (b + 2 + length (long_length (length payload)) + length key)
        (length (under key payload))
      ≡ under key payload

length-under : (key payload : Bytes) → length (under key payload) ≡ length payload
length-under [] payload = refl
length-under (k ∷ key) payload = length-masked (k ∷ key) 0 payload

pub Laid-frame_bytes :
    (mem : Memory) (b : ℕ) (fin : Bool) (opcode : ℕ) (key payload : Bytes)
    → span mem b (length (frame_bytes fin opcode key payload)) ≡ frame_bytes fin opcode key payload
    → Laid mem b fin opcode key payload
unfolding frame_bytes
Laid-frame_bytes mem b fin opcode key payload h =
    let n = length payload in
    let two : suc (suc b) ≡ b + 2 = omega arith in
    let (l, r) =
      span-split mem (suc (suc b)) (long_length n) (key ++ under key payload)
        (tail_eq (tail_eq h)) in
    let (k, u) = span-split mem (suc (suc b) + length (long_length n)) key (under key payload) r in
    record {
      first = head_eq h;
      second = ap mem (omega arith) ∙ head_eq (tail_eq h);
      long_at = subst (λ a. span mem a (length (long_length n)) ≡ long_length n) two l;
      key_at = subst (λ a. span mem (a + length (long_length n)) (length key) ≡ key) two k;
      payload_at =
          subst
            (λ a.
              span mem (a + length (long_length n) + length key) (length (under key payload))
              ≡ under key payload)
            two u;
    }

pub length-frame_bytes :
    (fin : Bool) (opcode : ℕ) (key payload : Bytes)
    → length (frame_bytes fin opcode key payload)
      ≡ 2 + length (long_length (length payload)) + length key + length payload
unfolding frame_bytes
length-frame_bytes fin opcode key payload = omega (
  arith,
  length-append (long_length (length payload)) (key ++ under key payload),
  length-append key (under key payload),
  length-under key payload,
)
