-- ===== src/Static/Unload.antt =====
-- `unload` and `pop` on a valid manager: no assertion fails.
use mathlib.Core.Path.{subst}
use cppsp_ng.Base.{
  ℕ, ◌≡◌, refl, ap, ◌∙◌, true, false, Bool-cases, inl, inr, none, some, List, [], ◌∷◌, ◌++◌, drop,
  ◌==◌, arith,
}
use cppsp_ng.Static.Defs.{Pointer, StaticFileManager}
use cppsp_ng.Static.Files.{assign_freed}
use cppsp_ng.Static.Manager.{unlink, do_unload, drop_idle, ends_agree, unload, pop}
use cppsp_ng.Static.Links.{has, has-split, Distinct-remove}
use cppsp_ng.Static.Unlink.{ends_agree-Linked}
use cppsp_ng.Static.Valid.{Valid}
use cppsp_ng.Static.Unlist.{
  Kept, Kept-refl, has-remove, has_middle, counted, unlisted, do_unload-Linked, unlisted-refs,
  unlisted-Sound,
}
use cppsp_ng.Static.Forget.{forget, forget-Valid}

module _ (s : StaticFileManager) (ys : List ℕ) (a : ℕ) (zs : List ℕ)
    (v : Valid s (ys ++ a ∷ zs)) where
  idle-Valid : Valid (forget a (unlisted a s)) (ys ++ zs)
  unfolding unlink do_unload
  idle-Valid =
      let member = has_middle ys a zs in
      forget-Valid (unlisted a s) (ys ++ zs) a (unlisted-Sound s ys a zs v.sound)
        (v.sound.made a member) (v.sound.alive a member)
        ((Distinct-remove ys a zs v.sound.linked.distinct).1)
        (λ x b f o ne.
          let no : (x == a) ≡ false = ground arith in
          omega
            (arith, unlisted-refs s ys a zs v.sound x, v.used x b f (has-remove x ys a zs no ∙ o)))

  kept-Valid : (((unlisted a s).files a).ref_count == 0) ≡ false → Valid (unlisted a s) (ys ++ zs)
  unfolding unlink do_unload
  kept-Valid ne = record {
    sound = unlisted-Sound s ys a zs v.sound;
    used = λ x b f o. elim (Bool-cases (x == a)) [
      | inl t ↦ let e : x ≡ a = ground arith in ground (arith, e)
      | inr t ↦
          omega
            (arith, unlisted-refs s ys a zs v.sound x, v.used x b f (has-remove x ys a zs t ∙ o))
    ];
  }

  -- `unload` of a listed file fails no assertion and takes the file out of the list.
  pub unload_lem : (t : StaticFileManager) × (unload a s ≡ some t) × Valid t (ys ++ zs) × Kept s t
  unfolding unload drop_idle unlink do_unload assign_freed
  unload_lem =
      let refs = unlisted-refs s ys a zs v.sound in
      let ends : ends_agree a (counted a s) ≡ true =
        ends_agree-Linked (counted a s) ys a zs (do_unload-Linked s ys a zs v.sound) in
      rw ends (elim (Bool-cases (((unlisted a s).files a).ref_count == 0)) [
        | inl idle ↦ (
          forget a (unlisted a s),
          rw idle refl,
          idle-Valid,
          record {
            fresh_eq = refl;
            refs_kept = refs;
            freed_kept = λ x h. elim (Bool-cases (x == a)) [
              | inl t ↦ let e : x ≡ a = ground arith in ground (arith, e, refs a)
              | inr t ↦ rw t refl
            ];
            time_kept = refl;
            capacity_kept = refl;
          },
        )
        | inr busy ↦ (
          unlisted a s,
          rw busy refl,
          kept-Valid busy,
          record {
            fresh_eq = refl;
            refs_kept = refs;
            freed_kept = λ x h. refl;
            time_kept = refl;
            capacity_kept = refl;
          },
        )
      ])

pub unload-has :
    (s : StaticFileManager) (xs : List ℕ) (a : ℕ)
    → Valid s xs
    → has a xs ≡ true
    → (ys : List ℕ) × (zs : List ℕ) × (xs ≡ ys ++ a ∷ zs)
      × ((t : StaticFileManager) × (unload a s ≡ some t) × Valid t (ys ++ zs) × Kept s t)
unload-has s xs a v h =
    let (ys, zs, e) = has-split a xs h in
    (ys, zs, e, unload_lem s ys a zs (subst (λ (k : List ℕ). Valid s k) e v))

pop-at :
    (s : StaticFileManager) {o : Pointer}
    → s.first_to_free ≡ o
    → pop s ≡ elim o [ none ↦ some s | some a ↦ unload a s ]
unfolding pop
pop-at s e = ap (λ (p : Pointer). elim p [ none ↦ some s | some a ↦ unload a s ]) e

-- `pop` takes the first file of the list out of it, if there is one.
pub pop_lem :
    (s : StaticFileManager) (xs : List ℕ)
    → Valid s xs
    → (t : StaticFileManager) × (pop s ≡ some t) × Valid t (drop 1 xs) × Kept s t
pop_lem s [] v = (s, pop-at s v.sound.linked.first_eq, v, Kept-refl s)
pop_lem s (x ∷ xs) v =
    let (t, e, w, k) = unload_lem s [] x xs v in (t, pop-at s v.sound.linked.first_eq ∙ e, w, k)
