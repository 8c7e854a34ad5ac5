-- ===== src/Static/Purge.antt =====
-- The loop of `timerCB`.
use mathlib.Core.Path.{subst}
use cppsp_ng.Base.{
  ℕ, zero, suc, ◌-◌, ◌^◌, ◌≤◌, ◌<◌, ◌≡◌, refl, ap, ◌∙◌, Bool-cases, inl, inr, some, List, [], ◌∷◌,
  length, length-drop, drop, leb, arith,
}
use Prim.Native.Nat.{min}
use cppsp_ng.Static.Defs.{StaticFileManager}
use cppsp_ng.Static.Manager.{purge}
use cppsp_ng.Static.Valid.{Valid}
use cppsp_ng.Static.Unlist.{Kept, Kept-refl, Kept-trans}
use cppsp_ng.Static.Unload.{pop_lem}

drop_more :
    (n c : ℕ) (xs : List ℕ)
    → c < length xs
    → drop (min n (length (drop 1 xs) - c)) (drop 1 xs) ≡ drop (min (suc n) (length xs - c)) xs
drop_more n c [] h = absurd (omega arith)
drop_more n c (x ∷ xs) h =
    let e : min (suc n) (suc (length xs) - c) ≡ suc (min n (length xs - c)) = omega arith in
    rw e refl

-- The loop of `timerCB` removes the oldest files, as many as there are too many.
pub purge_lem :
    (n : ℕ) (s : StaticFileManager) (xs : List ℕ)
    → Valid s xs
    → length xs < 2 ^ 32
    → (t : StaticFileManager) × (purge n s ≡ some t)
      × Valid t (drop (min n (length xs - s.capacity)) xs)
      × Kept s t
unfolding purge
purge_lem zero s xs v short =
    let e : 0 ≡ min 0 (length xs - s.capacity) = omega arith in
    (s, refl, subst (λ (k : ℕ). Valid s (drop k xs)) e v, Kept-refl s)
purge_lem (suc n) s xs v short = elim (Bool-cases (leb s.n_loaded s.capacity)) [
  | inl fits ↦
      let small : s.n_loaded ≤ s.capacity = ground arith in
      let e : 0 ≡ min (suc n) (length xs - s.capacity) = omega (arith, v.sound.count) in
      rw fits (s, refl, subst (λ (k : ℕ). Valid s (drop k xs)) e v, Kept-refl s)
  | inr more ↦
      let many : s.capacity < length xs =
        let h : s.capacity < s.n_loaded = ground arith in omega (arith, v.sound.count) in
      let (t, e, w, k) = pop_lem s xs v in
      let (u, f, last, l) = purge_lem n t (drop 1 xs) w (omega (arith, length-drop 1 xs)) in
      let rest : drop (min n (length (drop 1 xs) - t.capacity)) (drop 1 xs)
          ≡ drop (min (suc n) (length xs - s.capacity)) xs =
        ap (λ (c : ℕ). drop (min n (length (drop 1 xs) - c)) (drop 1 xs)) k.capacity_kept
        ∙ drop_more n s.capacity xs many in
      rw (more, e) (u, f, subst (λ (q : List ℕ). Valid u q) rest last, Kept-trans k l)
]
