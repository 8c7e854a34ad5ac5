-- ===== src/Static/Load.antt =====
-- `load` of a file that is not loaded.
use mathlib.Core.Path.{subst}
use cppsp_ng.Base.{
  ℕ, suc, ◌+◌, ◌≤◌, ◌<◌, ◌≡◌, ◌⊎◌, refl, sym, ap, ◌∙◌, true, false, not, Bool-cases, inl, inr, none,
  some, List, [], ◌∷◌, ◌++◌, length-append, leb, ◌==◌, arith,
}
use cppsp_ng.Base.Bytes.{Bytes}
use cppsp_ng.Static.Defs.{
  Pointer, LoadedStaticFile, Stat, Answer, failed, answer, System, Settings, modify, is_set, wrap,
  StaticFileManager,
}
use cppsp_ng.Static.Files.{set_file}
use cppsp_ng.Static.Loading.{
  Found, try_map, try_stat, try_open, try_load, loaded_as, link, load_result, load,
}
use cppsp_ng.Static.Manager.{one_if}
use cppsp_ng.Static.Links.{has, has-append, Chain-same}
use cppsp_ng.Static.Unlink.{Linked, link-Linked}
use cppsp_ng.Static.Valid.{held, Sound, Valid, Alike, link-Alike}
use cppsp_ng.Static.Unlist.{Kept}

-- With so many open before: a failure leaves as many open, and a file that was found has one descriptor or mapping more.
abbrev Opens : ℕ → Found → Type 0
Opens n (handles, inl e) = handles ≡ n
Opens n (handles, inr (st, mapped, fd)) =
    (handles ≡ suc n) × (one_if (is_set mapped) + one_if (is_set fd) ≡ 1)

try_map-Opens :
    (path : Bytes) (e n : ℕ) (st : Stat) (p : Pointer) → Opens n (try_map path e (n + 1) st p)
unfolding try_map
try_map-Opens path e n st none = omega arith
try_map-Opens path e n st (some m) = (omega arith, refl)

try_stat-Opens :
    (set : Settings) (os : System) (path : Bytes) (n fd : ℕ) (a : Answer Stat)
    → Opens n (try_stat set os path (n + 1) fd a)
unfolding try_stat
try_stat-Opens set os path n fd (failed e) = omega arith
try_stat-Opens set os path n fd (answer st) = elim (Bool-cases (not st.is_file)) [
  | inl t ↦ rw t (omega arith)
  | inr t ↦ elim (Bool-cases (leb st.size set.max_mmap_size)) [
    | inl u ↦ rw (t, u) (try_map-Opens path os.errno n st (os.mmap fd st.size))
    | inr u ↦ rw (t, u) (omega arith, refl)
  ]
]

try_open-Opens :
    (set : Settings) (os : System) (path : Bytes) (n : ℕ) (a : Answer ℕ)
    → Opens n (try_open set os path n a)
unfolding try_open
try_open-Opens set os path n (failed e) = refl
try_open-Opens set os path n (answer fd) = try_stat-Opens set os path n fd (os.fstat fd)

-- The links of a file are not written.
pub record SameLinks (f g : LoadedStaticFile) : Type 0 where
  pub prev_eq : g.prev ≡ f.prev
  pub next_eq : g.next ≡ f.next

module _ (s : StaticFileManager) (a : ℕ) (f : LoadedStaticFile) where
  pub at_self : (set_file a f s).files a ≡ f
  unfolding set_file modify
  at_self = ground arith

  pub at_other : (x : ℕ) → (x == a) ≡ false → (set_file a f s).files x ≡ s.files x
  unfolding set_file modify
  at_other x ne = rw ne refl

  -- A property of the file at each address.
  pub by_place :
      (P : (x : ℕ) → LoadedStaticFile → Type 0)
      → P a f
      → ((x : ℕ) → (x == a) ≡ false → P x (s.files x))
      → (x : ℕ) → P x ((set_file a f s).files x)
  unfolding set_file modify
  by_place P here there x = elim (Bool-cases (x == a)) [
    | inl t ↦ let e : a ≡ x = ground arith in rw t (subst (λ (i : ℕ). P i f) e here)
    | inr t ↦ rw t (there x t)
  ]

  pub set_file-Linked :
      (xs : List ℕ)
      → SameLinks (s.files a) f
      → Linked s.files s.first_to_free s.last_to_free xs
      → Linked
          (set_file a f s).files
          (set_file a f s).first_to_free
          (set_file a f s).last_to_free
          xs
  unfolding set_file
  set_file-Linked xs k l = record {
    chain =
        Chain-same s.files (set_file a f s).files none none xs
          (λ x h.
            by_place (λ i g. (g.prev ≡ (s.files i).prev) × (g.next ≡ (s.files i).next))
              (k.prev_eq, k.next_eq) (λ i t. (refl, refl)) x)
          l.chain;
    first_eq = l.first_eq;
    last_eq = l.last_eq;
    distinct = l.distinct;
  }

  pub set_file-Kept : f.ref_count ≡ (s.files a).ref_count → Kept s (set_file a f s)
  unfolding set_file
  set_file-Kept e = record {
    fresh_eq = refl;
    refs_kept = λ x. by_place (λ i g. g.ref_count ≡ (s.files i).ref_count) e (λ i t. refl) x;
    freed_kept = λ x h. refl;
    time_kept = refl;
    capacity_kept = refl;
  }

  -- A write to a file that leaves its links, its path and what it holds, and one that leaves its references too.
  pub set_file-Sound :
      (xs : List ℕ)
      → SameLinks (s.files a) f
      → f.path ≡ (s.files a).path
      → held f ≡ held (s.files a)
      → Sound s xs
      → Sound (set_file a f s) xs
  unfolding set_file
  set_file-Sound xs k path same w =
      let paths = by_place (λ i g. g.path ≡ (s.files i).path) path (λ i t. refl) in
      let helds = by_place (λ i g. held g ≡ held (s.files i)) same (λ i t. refl) in
      record {
        linked = set_file-Linked xs k w.linked;
        count = w.count;
        handles_eq = w.handles_eq;
        made = w.made;
        alive = w.alive;
        held_eq = λ x b. helds x ∙ w.held_eq x b;
        cached = λ c x e. let (b, g, p) = w.cached c x e in (b, g, paths x ∙ p);
        in_cache = λ x b g. ap s.cache (paths x) ∙ w.in_cache x b g;
        unused = w.unused;
      }

  pub set_file-Valid :
      (xs : List ℕ)
      → SameLinks (s.files a) f
      → Alike (s.files a) f
      → Valid s xs
      → Valid (set_file a f s) xs
  unfolding set_file
  set_file-Valid xs k l v = record {
    sound = set_file-Sound xs k l.path_eq l.held_same v.sound;
    used = λ x b g o. omega (
      arith,
      by_place (λ i h. h.ref_count ≡ (s.files i).ref_count) l.refs_eq (λ i t. refl) x,
      v.used x b g o,
    );
  }

-- What `load` needs of the file, and what it gives: the list is the same or has the file at its end.
pub record Idle (s : StaticFileManager) (xs : List ℕ) (a : ℕ) : Type 0 where
  pub lt : a < s.fresh
  pub live : s.freed a ≡ false
  pub out : has a xs ≡ false
  pub referenced : 1 ≤ (s.files a).ref_count

has-snoc : (xs : List ℕ) (a x : ℕ) → (x == a) ≡ false → has x (xs ++ a ∷ []) ≡ has x xs
has-snoc xs a x ne = ground (arith, has-append x xs (a ∷ []))

has_last : (xs : List ℕ) (a : ℕ) → has a (xs ++ a ∷ []) ≡ true
has_last xs a = ground (arith, has-append a xs (a ∷ []))

pub eq_of : (x a : ℕ) → (x == a) ≡ true → x ≡ a
eq_of x a h = ground arith

module _ (s : StaticFileManager) (xs : List ℕ) (a : ℕ) (v : Valid s xs) (idle : Idle s xs a)
    (g : LoadedStaticFile) (links : SameLinks (s.files a) g) (path : g.path ≡ (s.files a).path)
    (refs : g.ref_count ≡ (s.files a).ref_count) (one : held g ≡ 1) where
  abbrev filled : StaticFileManager
  filled =
      let t = set_file a g s in
      record t { loads_counter = wrap (t.loads_counter + 1); handles = suc t.handles }

  -- A property of the listed files.
  of_listed :
      (P : ℕ → Type 0)
      → P a
      → ((x : ℕ) → has x xs ≡ true → P x)
      → (x : ℕ) → has x (xs ++ a ∷ []) ≡ true
      → P x
  of_listed P here there x h = elim (Bool-cases (x == a)) [
    | inl t ↦ subst P (sym (eq_of x a t)) here
    | inr t ↦ there x (sym (has-snoc xs a x t) ∙ h)
  ]

  filled-path : (x : ℕ) → ((link a filled).files x).path ≡ (s.files x).path
  filled-path x =
      (link-Alike a filled x).path_eq
      ∙ by_place s a g (λ i f. f.path ≡ (s.files i).path) path (λ i t. refl) x

  filled-refs : (x : ℕ) → ((link a filled).files x).ref_count ≡ (s.files x).ref_count
  filled-refs x = (link-Alike a filled x).refs_eq ∙ (set_file-Kept s a g refs).refs_kept x

  filled-held :
      (x : ℕ) → x < s.fresh → held ((link a filled).files x) ≡ one_if (has x (xs ++ a ∷ []))
  filled-held x = λ b.
      (link-Alike a filled x).held_same
      ∙ by_place s a g (λ i f. i < s.fresh → held f ≡ one_if (has i (xs ++ a ∷ [])))
          (λ c. one ∙ rw (has_last xs a) refl)
          (λ i t c. v.sound.held_eq i c ∙ ap one_if (sym (has-snoc xs a i t))) x b

  filled-Valid : Valid (link a filled) (xs ++ a ∷ [])
  unfolding link set_file
  filled-Valid =
      let w = v.sound in
      record {
        sound = record {
          linked = link-Linked filled xs a (set_file-Linked s a g xs links w.linked) idle.out;
          count = omega (arith, w.count, length-append xs (a ∷ []));
          handles_eq = omega (arith, w.handles_eq, length-append xs (a ∷ []));
          made = of_listed (λ x. x < s.fresh) idle.lt w.made;
          alive = of_listed (λ x. s.freed x ≡ false) idle.live w.alive;
          held_eq = filled-held;
          cached = λ c x e. let (b, k, p) = w.cached c x e in (b, k, filled-path x ∙ p);
          in_cache = λ x b k. ap s.cache (filled-path x) ∙ w.in_cache x b k;
          unused = w.unused;
        };
        used = λ x b k o. elim (Bool-cases (x == a)) [
          | inl t ↦
              let e = eq_of x a t in
              let no : has x (xs ++ a ∷ []) ≡ true = rw e (has_last xs a) in absurd (cc (o, no))
          | inr t ↦ omega (arith, filled-refs x, v.used x b k (sym (has-snoc xs a x t) ∙ o))
        ];
      }

  filled-Kept : Kept s (link a filled)
  unfolding link set_file
  filled-Kept = record {
    fresh_eq = refl;
    refs_kept = filled-refs;
    freed_kept = λ x h. refl;
    time_kept = refl;
    capacity_kept = refl;
  }

module _ (set : Settings) (os : System) (s : StaticFileManager) (xs : List ℕ) (a : ℕ)
    (v : Valid s xs) (idle : Idle s xs a) where
  -- The list behind `load` is the same, or has the file at its end.
  abbrev Extended : StaticFileManager → Type 0
  Extended t = (ys : List ℕ) × ((ys ≡ xs) ⊎ (ys ≡ xs ++ a ∷ [])) × Valid t ys × Kept s t

  load_result_lem :
      (f : LoadedStaticFile)
      → SameLinks (s.files a) f
      → Alike (s.files a) f
      → (found : Found) → Opens s.handles found
      → Extended (load_result set a f s found)
  unfolding load_result loaded_as
  load_result_lem f links like (handles, inl e) same =
      let g = record f { last_exception = some e } in
      subst (λ (n : ℕ). Extended (load_result set a f s (n, inl e))) (sym same)
        (
          xs,
          inl refl,
          set_file-Valid s a g xs (record { prev_eq = links.prev_eq; next_eq = links.next_eq })
              (record {
                path_eq = like.path_eq;
                held_same = like.held_same;
                refs_eq = like.refs_eq;
              })
              v,
          set_file-Kept s a g like.refs_eq,
        )
  load_result_lem f links like (handles, inr (st, mapped, fd)) (more, one) =
      let g = record (loaded_as set st mapped fd f) { last_exception = none } in
      let same : SameLinks (s.files a) g = record {
        prev_eq = links.prev_eq;
        next_eq = links.next_eq;
      } in
      subst (λ (n : ℕ). Extended (load_result set a f s (n, inr (st, mapped, fd)))) (sym more)
        (
          xs ++ a ∷ [],
          inr refl,
          filled-Valid s xs a v idle g same like.path_eq like.refs_eq one,
          filled-Kept s xs a v idle g same like.path_eq like.refs_eq one,
        )

  pub load_lem :
      (ys : List ℕ) × ((ys ≡ xs) ⊎ (ys ≡ xs ++ a ∷ []))
      × Valid (load set os a s) ys
      × Kept s (load set os a s)
  unfolding load try_load
  load_lem =
      let f = record (s.files a) { last_check = s.curr_time } in
      let path = set.base_path ++ f.path in
      load_result_lem f (record { prev_eq = refl; next_eq = refl })
        (record { path_eq = refl; held_same = refl; refs_eq = refl })
        (try_open set os path s.handles (os.open_file path))
        (try_open-Opens set os path s.handles (os.open_file path))
