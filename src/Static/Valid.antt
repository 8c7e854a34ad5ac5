-- ===== src/Static/Valid.antt =====
-- What holds of the manager between its operations, as the comments of static_handler.H say it.
use cppsp_ng.Base.{
  ℕ, ◌+◌, ◌≤◌, ◌<◌, ◌≡◌, refl, ◌∙◌, Bool, true, false, ◌||◌, Bool-cases, inl, inr, none, some, List,
  length, ◌==◌, arith,
}
use cppsp_ng.Base.Bytes.{Bytes}
use cppsp_ng.Static.Defs.{
  Pointer, LoadedStaticFile, Files, modify, is_set, loaded, wrap, StaticFileManager,
}
use cppsp_ng.Static.Files.{set_next, set_prev}
use cppsp_ng.Static.Loading.{link}
use cppsp_ng.Static.Manager.{unlink, one_if}
use cppsp_ng.Static.Links.{has}
use cppsp_ng.Static.Unlink.{Linked}

-- How many descriptors and mappings a file holds.
abbrev pub held : LoadedStaticFile → ℕ
held f = one_if (is_set f.mapped) + one_if (is_set f.fd)

-- The list holds the loaded files, each with one descriptor or mapping, and `nLoaded` counts them. The map has
-- exactly the files that were made and not deleted, under their paths.
pub record Sound (s : StaticFileManager) (xs : List ℕ) : Type 0 where
  pub linked : Linked s.files s.first_to_free s.last_to_free xs
  pub count : s.n_loaded ≡ wrap (length xs)
  pub handles_eq : s.handles ≡ length xs
  pub made : (a : ℕ) → has a xs ≡ true → a < s.fresh
  pub alive : (a : ℕ) → has a xs ≡ true → s.freed a ≡ false
  pub held_eq : (a : ℕ) → a < s.fresh → held (s.files a) ≡ one_if (has a xs)
  pub cached :
      (k : Bytes) (a : ℕ)
      → s.cache k ≡ some a
      → (a < s.fresh) × (s.freed a ≡ false) × ((s.files a).path ≡ k)
  pub in_cache : (a : ℕ) → a < s.fresh → s.freed a ≡ false → s.cache (s.files a).path ≡ some a
  pub unused : (a : ℕ) → s.fresh ≤ a → s.freed a ≡ false

-- A file that is not loaded is referenced, or deleted.
pub record Valid (s : StaticFileManager) (xs : List ℕ) : Type 0 where
  pub sound : Sound s xs
  pub used :
      (a : ℕ) → a < s.fresh → s.freed a ≡ false → has a xs ≡ false → 1 ≤ (s.files a).ref_count

pub loaded-held : (f : LoadedStaticFile) (b : Bool) → held f ≡ one_if b → loaded f ≡ b
unfolding loaded
loaded-held f true h = both (is_set f.mapped) (is_set f.fd) h
  where
    both : (p q : Bool) → one_if p + one_if q ≡ 1 → (p || q) ≡ true
    both true q h = refl
    both false true h = refl
    both false false h = absurd (omega arith)
loaded-held f false h = neither (is_set f.mapped) (is_set f.fd) h
  where
    neither : (p q : Bool) → one_if p + one_if q ≡ 0 → (p || q) ≡ false
    neither true q h = absurd (omega arith)
    neither false true h = absurd (omega arith)
    neither false false h = refl

-- What else a file says is not touched by the writes to the links.
pub record Alike (f g : LoadedStaticFile) : Type 0 where
  pub path_eq : g.path ≡ f.path
  pub held_same : held g ≡ held f
  pub refs_eq : g.ref_count ≡ f.ref_count

pub Alike-refl : (f : LoadedStaticFile) → Alike f f
Alike-refl f = record { path_eq = refl; held_same = refl; refs_eq = refl }

pub Alike-trans : {f g h : LoadedStaticFile} → Alike f g → Alike g h → Alike f h
Alike-trans p q = record {
  path_eq = q.path_eq ∙ p.path_eq;
  held_same = q.held_same ∙ p.held_same;
  refs_eq = q.refs_eq ∙ p.refs_eq;
}

pub modify-Alike :
    (p : ℕ) (g : LoadedStaticFile → LoadedStaticFile) (files : Files) (x : ℕ)
    → ((f : LoadedStaticFile) → Alike f (g f))
    → Alike (files x) (modify p g files x)
unfolding modify
modify-Alike p g files x a = elim (Bool-cases (x == p)) [
  | inl t ↦ rw t (a (files x))
  | inr t ↦ rw t (Alike-refl (files x))
]

pub set_next-Alike :
    (o v : Pointer) (files : Files) (x : ℕ) → Alike (files x) (set_next o v files x)
unfolding set_next
set_next-Alike none v files x = Alike-refl (files x)
set_next-Alike (some p) v files x =
    modify-Alike p (λ f. record f { next = v }) files x
      (λ f. record { path_eq = refl; held_same = refl; refs_eq = refl })

pub set_prev-Alike :
    (o v : Pointer) (files : Files) (x : ℕ) → Alike (files x) (set_prev o v files x)
unfolding set_prev
set_prev-Alike none v files x = Alike-refl (files x)
set_prev-Alike (some p) v files x =
    modify-Alike p (λ f. record f { prev = v }) files x
      (λ f. record { path_eq = refl; held_same = refl; refs_eq = refl })

pub unlink-Alike :
    (a : ℕ) (s : StaticFileManager) (x : ℕ) → Alike (s.files x) ((unlink a s).files x)
unfolding unlink
unlink-Alike a s x =
    let f = set_next (s.files a).prev (s.files a).next s.files in
    Alike-trans (set_next-Alike (s.files a).prev (s.files a).next s.files x)
      (set_prev-Alike (f a).next (f a).prev f x)

pub link-Alike : (a : ℕ) (s : StaticFileManager) (x : ℕ) → Alike (s.files x) ((link a s).files x)
unfolding link
link-Alike a s x =
    let g : LoadedStaticFile → LoadedStaticFile =
      λ f. record f { prev = s.last_to_free; next = none } in
    Alike-trans
      (modify-Alike a g s.files x
        (λ f. record { path_eq = refl; held_same = refl; refs_eq = refl }))
      (set_next-Alike s.last_to_free (some a) (modify a g s.files) x)
