-- ===== src/Static/Create.antt =====
-- `createHandler` on a valid manager.
use mathlib.Core.Path.{subst}
use cppsp_ng.Base.{
  ℕ, suc, ◌≤◌, ◌<◌, ◌≡◌, refl, sym, ap, ◌∙◌, false, Bool-cases, inl, inr, Option, none, some,
  Option-cases, of_some, List, ◌==◌, arith,
}
use cppsp_ng.Base.Bytes.{Bytes}
use cppsp_ng.Base.Equal.{equal, equal_sound, equal_refl}
use cppsp_ng.Static.Defs.{LoadedStaticFile, modify, StaticFileManager}
use cppsp_ng.Static.Files.{assign_cache, new_file, add_file, get_file, set_file, ref}
use cppsp_ng.Static.Manager.{one_if, create_handler}
use cppsp_ng.Static.Links.{has, Chain-same}
use cppsp_ng.Static.Valid.{held, Sound, Valid}
use cppsp_ng.Static.Load.{at_self, at_other, by_place, set_file-Sound, eq_of}
use cppsp_ng.Static.Reload.{Referenced, ref-Valid, ref-at}

module _ (path : Bytes) (s : StaticFileManager) (xs : List ℕ) (w : Sound s xs)
    (miss : s.cache path ≡ none) where
  abbrev added : StaticFileManager
  added = (add_file path s).1

  fresh_out : has s.fresh xs ≡ false
  fresh_out = elim (Bool-cases (has s.fresh xs)) [
    | inl t ↦ let lt = w.made s.fresh t in absurd (omega arith)
    | inr t ↦ t
  ]

  added_at : added.files s.fresh ≡ new_file path
  unfolding add_file set_file modify
  added_at = at_self s s.fresh (new_file path)

  added_other : (x : ℕ) → x < s.fresh → added.files x ≡ s.files x
  unfolding add_file set_file modify
  added_other x lt = at_other s s.fresh (new_file path) x (ground arith)

  added-held : (x : ℕ) → x < suc s.fresh → held (added.files x) ≡ one_if (has x xs)
  unfolding new_file
  added-held x lt = elim (Bool-cases (x == s.fresh)) [
    | inl t ↦
        let e = eq_of x s.fresh t in
        ap (λ (i : ℕ). held (added.files i)) e
        ∙ ap held added_at
        ∙ rw fresh_out refl
        ∙ ap (λ (i : ℕ). one_if (has i xs)) (sym e)
    | inr t ↦ let b : x < s.fresh = ground arith in ap held (added_other x b) ∙ w.held_eq x b
  ]

  added-cached :
      (k : Bytes) (x : ℕ)
      → added.cache k ≡ some x
      → (x < suc s.fresh) × (s.freed x ≡ false) × ((added.files x).path ≡ k)
  unfolding add_file assign_cache
  added-cached k x h = elim (Bool-cases (equal k path)) [
    | inl t ↦
        let e : s.fresh ≡ x = of_some (rw t at h) in
        (
          omega arith,
          w.unused x (omega arith),
          ap (λ (i : ℕ). (added.files i).path) (sym e)
              ∙ ap (λ (f : LoadedStaticFile). f.path) added_at
              ∙ (unfold new_file in sym (equal_sound k path t)),
        )
    | inr t ↦
        let (b, f, p) = w.cached k x (rw t at h) in
        (omega arith, f, ap (λ (f : LoadedStaticFile). f.path) (added_other x b) ∙ p)
  ]

  cache_same : added.cache path ≡ some s.fresh
  unfolding add_file assign_cache
  cache_same = rw (equal_refl path) refl

  cache_other : (k : Bytes) → equal k path ≡ false → added.cache k ≡ s.cache k
  unfolding add_file assign_cache
  cache_other k ne = rw ne refl

  added-in_cache :
      (x : ℕ) → x < suc s.fresh → s.freed x ≡ false → added.cache (added.files x).path ≡ some x
  unfolding new_file
  added-in_cache x b f = elim (Bool-cases (x == s.fresh)) [
    | inl t ↦
        let e = eq_of x s.fresh t in
        ap (λ (i : ℕ). added.cache (added.files i).path) e
        ∙ ap (λ (f : LoadedStaticFile). added.cache f.path) added_at
        ∙ cache_same
        ∙ ap some (sym e)
    | inr t ↦
        let lt : x < s.fresh = ground arith in
        let mine = w.in_cache x lt f in
        ap (λ (f : LoadedStaticFile). added.cache f.path) (added_other x lt)
        ∙ elim (Bool-cases (equal (s.files x).path path)) [
          | inl same ↦
              let gone : none ≡ some x =
                sym miss ∙ ap s.cache (sym (equal_sound (s.files x).path path same)) ∙ mine in
              absurd (cc gone)
          | inr ne ↦ cache_other (s.files x).path ne ∙ mine
        ]
  ]

  added-Sound : Sound added xs
  unfolding add_file
  added-Sound = record {
    linked = record {
      chain =
          Chain-same s.files added.files none none xs
            (λ x h.
              let e = added_other x (w.made x h) in
              (ap (λ (f : LoadedStaticFile). f.prev) e, ap (λ (f : LoadedStaticFile). f.next) e))
            w.linked.chain;
      first_eq = w.linked.first_eq;
      last_eq = w.linked.last_eq;
      distinct = w.linked.distinct;
    };
    count = w.count;
    handles_eq = w.handles_eq;
    made = λ x h. let lt = w.made x h in omega arith;
    alive = w.alive;
    held_eq = added-held;
    cached = added-cached;
    in_cache = added-in_cache;
    unused = λ x b. w.unused x (omega arith);
  }

  -- The new file has no reference yet, which `createHandler` sees to.
  created-used :
      (x : ℕ)
      → x < suc s.fresh
      → s.freed x ≡ false
      → has x xs ≡ false
      → ((y : ℕ) → y < s.fresh → s.freed y ≡ false → has y xs ≡ false → 1 ≤ (s.files y).ref_count)
      → 1 ≤ ((ref s.fresh added).files x).ref_count
  unfolding ref
  created-used x b f o used =
      by_place added s.fresh
        (record (added.files s.fresh) { ref_count = suc (added.files s.fresh).ref_count })
        (λ i h. i < suc s.fresh → s.freed i ≡ false → has i xs ≡ false → 1 ≤ h.ref_count)
        (λ b f o. omega arith)
        (λ i t b f o.
          let lt : i < s.fresh = ground arith in
          omega
            (arith, used i lt f o, ap (λ (h : LoadedStaticFile). h.ref_count) (added_other i lt)))
        x b f o

-- The file that `createHandler` gives for a path.
pub record Handles (path : Bytes) (a : ℕ) (t : StaticFileManager) (xs : List ℕ) : Type 0 where
  pub valid : Valid t xs
  pub reference : Referenced t a
  pub path_eq : (t.files a).path ≡ path

ref-path : (a : ℕ) (t : StaticFileManager) → ((ref a t).files a).path ≡ (t.files a).path
unfolding ref
ref-path a t =
    ap (λ (f : LoadedStaticFile). f.path)
      (at_self t a (record (t.files a) { ref_count = suc (t.files a).ref_count }))

created_refs : (a : ℕ) (t : StaticFileManager) → 1 ≤ ((ref a t).files a).ref_count
created_refs a t = omega (arith, (ref-at a t).1)

added-path :
    (path : Bytes) (s : StaticFileManager) (xs : List ℕ)
    → Sound s xs
    → s.cache path ≡ none
    → ((add_file path s).1.files s.fresh).path ≡ path
unfolding new_file
added-path path s xs w miss = ap (λ (f : LoadedStaticFile). f.path) (added_at path s xs w miss)

created_new :
    (path : Bytes) (s : StaticFileManager) (xs : List ℕ)
    → Valid s xs
    → s.cache path ≡ none
    → Handles path (add_file path s).0 (ref (add_file path s).0 (add_file path s).1) xs
unfolding add_file ref set_file
created_new path s xs v miss =
    let w = v.sound in
    let t = (add_file path s).1 in
    record {
      valid = record {
        sound =
            set_file-Sound t s.fresh
              (record (t.files s.fresh) { ref_count = suc (t.files s.fresh).ref_count }) xs
              (record { prev_eq = refl; next_eq = refl }) refl refl (added-Sound path s xs w miss);
        used = λ x b f o. created-used path s xs w miss x b f o v.used;
      };
      reference = record {
        lt = omega arith;
        live = w.unused s.fresh (omega arith);
        referenced = created_refs s.fresh t;
      };
      path_eq = ref-path s.fresh t ∙ added-path path s xs w miss;
    }

created_old :
    (path : Bytes) (s : StaticFileManager) (xs : List ℕ) (a : ℕ)
    → Valid s xs
    → s.cache path ≡ some a
    → Handles path a (ref a s) xs
created_old path s xs a v hit =
    let (b, f, p) = v.sound.cached path a hit in
    record {
      valid = ref-Valid s xs a v;
      reference = record {
        lt = unfold ref set_file in b;
        live = unfold ref set_file in f;
        referenced = created_refs a s;
      };
      path_eq = ref-path a s ∙ p;
    }

pub get_file-at :
    (path : Bytes) (s : StaticFileManager) {o : Option ℕ}
    → s.cache path ≡ o
    → get_file path s ≡ elim o [ none ↦ add_file path s | some a ↦ (a, s) ]
unfolding get_file
get_file-at path s e = ap (λ (o : Option ℕ). elim o [ none ↦ add_file path s | some a ↦ (a, s) ]) e

made :
    (path : Bytes) (s : StaticFileManager) (xs : List ℕ) (p : ℕ × StaticFileManager)
    → get_file path s ≡ p
    → Handles path p.0 (ref p.0 p.1) xs
    → Handles path (create_handler path s).0 (create_handler path s).1 xs
unfolding create_handler
made path s xs p e h =
    subst (λ (q : ℕ × StaticFileManager). Handles path q.0 (ref q.0 q.1) xs) (sym e) h

-- `createHandler` on a valid manager leaves it valid with the same list of loaded files, and gives a file of
-- that path that is not deleted and has a reference.
pub create_handler_lem :
    (path : Bytes) (s : StaticFileManager) (xs : List ℕ)
    → Valid s xs
    → Handles path (create_handler path s).0 (create_handler path s).1 xs
create_handler_lem path s xs v = elim (Option-cases (s.cache path)) [
  | inl miss ↦
      made path s xs (add_file path s) (get_file-at path s miss) (created_new path s xs v miss)
  | inr (a, hit) ↦ made path s xs (a, s) (get_file-at path s hit) (created_old path s xs a v hit)
]
