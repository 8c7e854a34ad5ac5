-- ===== src/Static/Unlist.antt =====
-- A loaded file that leaves the list, and what the operations on the list keep.
use cppsp_ng.Base.{
  ℕ, suc, ◌+◌, ◌-◌, ◌^◌, ◌≤◌, ◌<◌, ◌≡◌, refl, ap, ◌∙◌, true, false, Bool-cases, inl, inr, none,
  List, ◌∷◌, ◌++◌, length, length-append, ◌==◌, if◌then◌else◌, arith,
}
use cppsp_ng.Static.Defs.{modify, wrap, StaticFileManager}
use cppsp_ng.Static.Files.{set_file}
use cppsp_ng.Static.Manager.{unlink, one_if, do_unload}
use cppsp_ng.Static.Links.{has, has-append, Chain-same, Distinct-remove}
use cppsp_ng.Static.Unlink.{Linked, unlink-Linked}
use cppsp_ng.Static.Valid.{held, Sound, unlink-Alike}

-- What the operations on the list leave as it is: a file with a reference is not deleted.
pub record Kept (s t : StaticFileManager) : Type 0 where
  pub fresh_eq : t.fresh ≡ s.fresh
  pub refs_kept : (x : ℕ) → (t.files x).ref_count ≡ (s.files x).ref_count
  pub freed_kept : (x : ℕ) → 1 ≤ (s.files x).ref_count → t.freed x ≡ s.freed x
  pub time_kept : t.curr_time ≡ s.curr_time
  pub capacity_kept : t.capacity ≡ s.capacity

pub Kept-refl : (s : StaticFileManager) → Kept s s
Kept-refl s = record {
  fresh_eq = refl;
  refs_kept = λ x. refl;
  freed_kept = λ x h. refl;
  time_kept = refl;
  capacity_kept = refl;
}

pub Kept-trans : {r s t : StaticFileManager} → Kept r s → Kept s t → Kept r t
Kept-trans p q = record {
  fresh_eq = q.fresh_eq ∙ p.fresh_eq;
  refs_kept = λ x. q.refs_kept x ∙ p.refs_kept x;
  freed_kept = λ x h. q.freed_kept x (omega (arith, p.refs_kept x)) ∙ p.freed_kept x h;
  time_kept = q.time_kept ∙ p.time_kept;
  capacity_kept = q.capacity_kept ∙ p.capacity_kept;
}

pub has-remove :
    (x : ℕ) (ys : List ℕ) (a : ℕ) (zs : List ℕ)
    → (x == a) ≡ false
    → has x (ys ++ a ∷ zs) ≡ has x (ys ++ zs)
has-remove x ys a zs ne = rw (has-append x ys (a ∷ zs), has-append x ys zs, ne) refl

has-weaken :
    (x : ℕ) (ys : List ℕ) (a : ℕ) (zs : List ℕ)
    → has x (ys ++ zs) ≡ true
    → has x (ys ++ a ∷ zs) ≡ true
has-weaken x ys a zs h = elim (Bool-cases (x == a)) [
  | inl t ↦ ground (arith, has-append x ys (a ∷ zs))
  | inr t ↦ has-remove x ys a zs t ∙ h
]

pub has_middle : (ys : List ℕ) (a : ℕ) (zs : List ℕ) → has a (ys ++ a ∷ zs) ≡ true
has_middle ys a zs = ground (arith, has-append a ys (a ∷ zs))

-- `unload` before its end.
abbrev pub counted : ℕ → StaticFileManager → StaticFileManager
counted a s = let t = do_unload a s in record t { n_loaded = wrap (t.n_loaded + (2 ^ 32 - 1)) }

abbrev pub unlisted : ℕ → StaticFileManager → StaticFileManager
unlisted a s = unlink a (counted a s)

module _ (s : StaticFileManager) (ys : List ℕ) (a : ℕ) (zs : List ℕ)
    (v : Sound s (ys ++ a ∷ zs)) where
  one_held : held (s.files a) ≡ 1
  one_held = v.held_eq a (v.made a (has_middle ys a zs)) ∙ rw (has_middle ys a zs) refl

  len : length (ys ++ a ∷ zs) ≡ suc (length (ys ++ zs))
  len = omega (arith, length-append ys (a ∷ zs), length-append ys zs)

  do_unload-links :
      (x : ℕ)
      → (((do_unload a s).files x).prev ≡ (s.files x).prev)
        × (((do_unload a s).files x).next ≡ (s.files x).next)
  unfolding do_unload set_file modify
  do_unload-links x = elim (Bool-cases (x == a)) [
    | inl t ↦ let e : x ≡ a = ground arith in rw (t, e) (refl, refl)
    | inr t ↦ rw t (refl, refl)
  ]

  pub do_unload-Linked :
      Linked
        (do_unload a s).files
        (do_unload a s).first_to_free
        (do_unload a s).last_to_free
        (ys ++ a ∷ zs)
  unfolding do_unload
  do_unload-Linked =
      let l = v.linked in
      record {
        chain =
            Chain-same s.files (do_unload a s).files none none (ys ++ a ∷ zs)
              (λ x h. do_unload-links x) l.chain;
        first_eq = l.first_eq;
        last_eq = l.last_eq;
        distinct = l.distinct;
      }

  do_unload-path : (x : ℕ) → ((do_unload a s).files x).path ≡ (s.files x).path
  unfolding do_unload set_file modify
  do_unload-path x = elim (Bool-cases (x == a)) [
    | inl t ↦ let e : x ≡ a = ground arith in rw (t, e) refl
    | inr t ↦ rw t refl
  ]

  do_unload-refs : (x : ℕ) → ((do_unload a s).files x).ref_count ≡ (s.files x).ref_count
  unfolding do_unload set_file modify
  do_unload-refs x = elim (Bool-cases (x == a)) [
    | inl t ↦ let e : x ≡ a = ground arith in rw (t, e) refl
    | inr t ↦ rw t refl
  ]

  do_unload-held :
      (x : ℕ) → held ((do_unload a s).files x) ≡ (if x == a then 0 else held (s.files x))
  unfolding do_unload set_file modify
  do_unload-held x = elim (Bool-cases (x == a)) [ inl t ↦ rw t refl | inr t ↦ rw t refl ]

  same_path : (x : ℕ) → ((unlisted a s).files x).path ≡ (s.files x).path
  same_path x = (unlink-Alike a _ x).path_eq ∙ do_unload-path x

  pub unlisted-refs : (x : ℕ) → ((unlisted a s).files x).ref_count ≡ (s.files x).ref_count
  unlisted-refs x = (unlink-Alike a _ x).refs_eq ∙ do_unload-refs x

  unlisted-held : (x : ℕ) → x < s.fresh → held ((unlisted a s).files x) ≡ one_if (has x (ys ++ zs))
  unlisted-held x b =
      let gone : has a (ys ++ zs) ≡ false = (Distinct-remove ys a zs v.linked.distinct).1 in
      (unlink-Alike a _ x).held_same ∙ do_unload-held x ∙ elim (Bool-cases (x == a)) [
        | inl t ↦ let e : x ≡ a = ground arith in rw (t, e, gone) refl
        | inr t ↦ rw t (v.held_eq x b ∙ ap one_if (has-remove x ys a zs t))
      ]

  pub unlisted-Sound : Sound (unlisted a s) (ys ++ zs)
  unfolding unlink do_unload
  unlisted-Sound = record {
    linked = unlink-Linked (counted a s) ys a zs do_unload-Linked;
    count = omega (arith, v.count, len);
    handles_eq = omega (arith, v.handles_eq, len, one_held);
    made = λ x h. v.made x (has-weaken x ys a zs h);
    alive = λ x h. v.alive x (has-weaken x ys a zs h);
    held_eq = λ x b. unlisted-held x b;
    cached = λ k x e. let (b, f, p) = v.cached k x e in (b, f, same_path x ∙ p);
    in_cache = λ x b f. ap s.cache (same_path x) ∙ v.in_cache x b f;
    unused = v.unused;
  }
