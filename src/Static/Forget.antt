-- ===== src/Static/Forget.antt =====
-- A file that leaves the map and is deleted.
use mathlib.Core.Path.{subst}
use cppsp_ng.Base.{
  ℕ, ◌≤◌, ◌<◌, ◌≡◌, ◌≢◌, sym, ap, ◌∙◌, true, false, Bool-cases, inl, inr, none, some, of_some, List,
  ◌==◌, arith,
}
use cppsp_ng.Base.Bytes.{Bytes}
use cppsp_ng.Base.Equal.{equal, equal_sound, equal_refl}
use cppsp_ng.Static.Defs.{StaticFileManager}
use cppsp_ng.Static.Files.{assign_cache, assign_freed}
use cppsp_ng.Static.Links.{has}
use cppsp_ng.Static.Valid.{Sound, Valid}

-- The map and the files without the file at `a`.
abbrev pub forget : ℕ → StaticFileManager → StaticFileManager
forget a s = record s {
  cache = assign_cache (s.files a).path none s.cache;
  freed = assign_freed a s.freed;
}

module _ (s : StaticFileManager) (xs : List ℕ) (a : ℕ) (v : Sound s xs) (lt : a < s.fresh)
    (live : s.freed a ≡ false) (out : has a xs ≡ false)
    (others : (x : ℕ)
      → x < s.fresh
      → s.freed x ≡ false
      → has x xs ≡ false
      → x ≢ a
      → 1 ≤ (s.files x).ref_count) where
  forget-alive : (x : ℕ) → has x xs ≡ true → (forget a s).freed x ≡ false
  unfolding assign_freed
  forget-alive x h = elim (Bool-cases (x == a)) [
    | inl t ↦
        let e : x ≡ a = ground arith in let o : has x xs ≡ false = rw e out in absurd (cc (h, o))
    | inr t ↦ rw t (v.alive x h)
  ]

  forget-live : (x : ℕ) → (forget a s).freed x ≡ false → (x ≢ a) × (s.freed x ≡ false)
  unfolding assign_freed
  forget-live x h = elim (Bool-cases (x == a)) [
    | inl t ↦ ground arith
    | inr t ↦ (ground arith, ground arith)
  ]

  forget-cached :
      (k : Bytes) (x : ℕ)
      → (forget a s).cache k ≡ some x
      → (x < s.fresh) × ((forget a s).freed x ≡ false) × ((s.files x).path ≡ k)
  unfolding assign_cache assign_freed
  forget-cached k x h = elim (Bool-cases (equal k (s.files a).path)) [
    | inl t ↦ absurd (cc (rw t at h))
    | inr t ↦
        let (b, f, p) = v.cached k x (rw t at h) in
        elim (Bool-cases (x == a)) [
          | inl u ↦
              let e : x ≡ a = ground arith in
              let same : equal k (s.files a).path ≡ true =
                subst (λ (i : ℕ). equal k (s.files i).path ≡ true) e (rw p (equal_refl k)) in
              absurd (cc (t, same))
          | inr u ↦ (b, rw u f, p)
        ]
  ]

  forget-in_cache :
      (x : ℕ)
      → x < s.fresh
      → (forget a s).freed x ≡ false
      → (forget a s).cache (s.files x).path ≡ some x
  unfolding assign_cache
  forget-in_cache x b h =
      let (ne, f) = forget-live x h in
      let mine = v.in_cache x b f in
      elim (Bool-cases (equal (s.files x).path (s.files a).path)) [
        | inl t ↦
            let same = equal_sound (s.files x).path (s.files a).path t in
            absurd (ne (of_some (sym mine ∙ ap s.cache same ∙ v.in_cache a lt live)))
        | inr t ↦ rw t mine
      ]

  pub forget-Valid : Valid (forget a s) xs
  unfolding assign_freed
  forget-Valid = record {
    sound = record {
      linked = v.linked;
      count = v.count;
      handles_eq = v.handles_eq;
      made = v.made;
      alive = forget-alive;
      held_eq = v.held_eq;
      cached = forget-cached;
      in_cache = forget-in_cache;
      unused = λ x b. let ne : (x == a) ≡ false = ground arith in rw ne (v.unused x b);
    };
    used = λ x b f o. let (ne, g) = forget-live x f in others x b g o ne;
  }
