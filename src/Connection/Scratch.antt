-- ===== src/Connection/Scratch.antt =====
-- `scratchArea`, the memory for the state of a handler, and `ObjectPool`, which keeps connections that were closed. An
-- object is its address; the back of the vector is the head of the list.
use mathlib.Core.Path.{subst}
use cppsp_ng.Base.{
  ℕ, zero, suc, ◌+◌, ◌*◌, ◌^◌, ◌≤◌, ◌<◌, ◌≡◌, ◌⊎◌, refl, sym, Bool, true, false, Bool-cases, inl,
  inr, Option, none, some, List, [], ◌∷◌, ◌++◌, append_assoc, ltb, ◌==◌, if◌then◌else◌, arith,
}
use cppsp_ng.Base.Signed.{twice, int_less, twice_small, int_less_small}
use cppsp_ng.Static.Links.{has, has-append, Distinct, Distinct-remove}

abbrev pub scratch_area_initial_size : ℕ
scratch_area_initial_size = 256

-- `while(sz < minSize) sz *= 2;`; `none` means that the fuel ran out.
unfoldable pub enlarge : ℕ → ℕ → ℕ → Option ℕ
enlarge zero size min_size = none
enlarge (suc fuel) size min_size =
    let more = enlarge fuel (twice size) min_size in
    if int_less size min_size then more else some size

-- An area with its size, or `bad_alloc` with what `scratchSize` is then.
pub data ScratchArea : Type 0 where
  area : ℕ → ScratchArea
  bad_alloc : ℕ → ScratchArea

-- What `malloc` gives for a size that was found; `malloced` says whether it succeeds.
abbrev pub allocated : Bool → Option ℕ → Option ScratchArea
allocated malloced none = none
allocated true (some size) = some (ScratchArea.area size)
allocated false (some size) = some (ScratchArea.bad_alloc 0)

-- The sizes are `int`s, given by their 32 bits.
unfoldable pub scratch_area : Bool → ℕ → ℕ → Option ScratchArea
unfolding enlarge
scratch_area malloced min_size scratch_size =
    let size =
      if int_less scratch_size scratch_area_initial_size
      then scratch_area_initial_size
      else scratch_size in
    if int_less scratch_size min_size
    then allocated malloced (enlarge (suc min_size) size min_size)
    else some (ScratchArea.area scratch_size)

pub record ObjectPool : Type 0 where
  pub pool : List ℕ
  pub fresh : ℕ

unfoldable pub get : ObjectPool → ℕ × ObjectPool
get p = elim p.pool [
  | [] ↦ (p.fresh, record p { fresh = suc p.fresh })
  | a ∷ rest ↦ (a, record p { pool = rest })
]

unfoldable pub put_object : ℕ → ObjectPool → ObjectPool
put_object a p = record p { pool = a ∷ p.pool }

-- The size doubles only while it is below what is asked for.
enlarge-some :
    (fuel size m : ℕ)
    → 0 < size
    → size < 2 ^ 31
    → m ≤ 2 ^ 30
    → m < fuel + size
    → 0 < fuel
    → (n : ℕ) × (enlarge fuel size m ≡ some n) × (size ≤ n) × (m ≤ n) × (n < 2 ^ 31)
unfolding enlarge
enlarge-some zero size m pos small low h some_fuel = absurd (omega arith)
enlarge-some (suc fuel) size m pos small low h some_fuel = elim (Bool-cases (ltb size m)) [
  | inl t ↦
      let lt : size < m = ground arith in
      let (n, e, a, b, c) =
        enlarge-some fuel (size * 2) m (omega arith) (omega arith) low (omega arith)
          (omega arith) in
      rw (int_less_small size m small (omega arith), t, twice_small size small)
        (n, e, omega arith, b, c)
  | inr t ↦
      rw (int_less_small size m small (omega arith), t)
        (size, refl, omega arith, ground arith, small)
]

-- What a call for so many bytes gives, with what `malloc` says and the size before.
abbrev pub Scratched : Bool → ℕ → ℕ → ScratchArea → Type 0
Scratched malloced min_size scratch_size (area n) =
    (min_size ≤ n) × (scratch_size ≤ n) × (n < 2 ^ 31) × ((malloced ≡ true) ⊎ (n ≡ scratch_size))
Scratched malloced min_size scratch_size (bad_alloc n) =
    (n ≡ 0) × (malloced ≡ false) × (scratch_size < min_size)

-- `scratchArea` ends, for a request of at most 2^30 bytes and a size below 2^31. An area that it gives is as large as was asked for, not smaller
-- than before and below 2^31, so that no doubling wraps around; if `malloc` fails it is the one from before. It throws only if `malloc` fails and the area was too small, and the size is then 0.
pub scratch_area_lem :
    (malloced : Bool) (min_size scratch_size : ℕ)
    → min_size ≤ 2 ^ 30
    → scratch_size < 2 ^ 31
    → (out : ScratchArea) × (scratch_area malloced min_size scratch_size ≡ some out)
      × Scratched malloced min_size scratch_size out
unfolding scratch_area
scratch_area_lem malloced min_size scratch_size low small =
    elim (Bool-cases (ltb scratch_size min_size)) [
      | inl more ↦
          let size =
            if ltb scratch_size scratch_area_initial_size
            then scratch_area_initial_size
            else scratch_size in
          let (n, e, a, b, c) =
            enlarge-some (suc min_size) size min_size (ground arith) (ground arith) low
              (omega arith) (omega arith) in
          rw
            (
              int_less_small scratch_size min_size small (omega arith),
              int_less_small scratch_size scratch_area_initial_size small (omega arith),
              more,
              e,
            )
            (found malloced n b (ground (arith, a)) c (ground arith))
      | inr enough ↦
          rw (int_less_small scratch_size min_size small (omega arith), enough)
            (ScratchArea.area scratch_size, refl, (ground arith, omega arith, small, inr refl))
    ]
  where
    found :
        (b : Bool) (n : ℕ)
        → min_size ≤ n
        → scratch_size ≤ n
        → n < 2 ^ 31
        → scratch_size < min_size
        → (out : ScratchArea) × (allocated b (some n) ≡ some out)
          × Scratched b min_size scratch_size out
    found true n h k l more = (ScratchArea.area n, refl, (h, k, l, inl refl))
    found false n h k l more = (ScratchArea.bad_alloc 0, refl, (refl, refl, more))

-- The pool with the objects that are in use.
pub record Apart (used : List ℕ) (p : ObjectPool) : Type 0 where
  pub distinct : Distinct (used ++ p.pool)
  pub made : (a : ℕ) → has a (used ++ p.pool) ≡ true → a < p.fresh

Distinct-insert :
    (xs : List ℕ) (a : ℕ) (ys : List ℕ)
    → Distinct (xs ++ ys)
    → has a (xs ++ ys) ≡ false
    → Distinct (xs ++ a ∷ ys)
Distinct-insert [] a ys d out = (out, d)
Distinct-insert (x ∷ xs) a ys (e, d) out = (
  ground (arith, has-append x xs (a ∷ ys), has-append x xs ys),
  Distinct-insert xs a ys d (ground arith),
)

pub data Step : List ℕ × ObjectPool → List ℕ × ObjectPool → Type 0 where
  got : (used : List ℕ) (p : ObjectPool) → Step (used, p) ((get p).0 ∷ used, (get p).1)
  gave :
      (ys : List ℕ) (a : ℕ) (zs : List ℕ) (p : ObjectPool)
      → Step (ys ++ a ∷ zs, p) (ys ++ zs, put_object a p)

pub data Reached : List ℕ × ObjectPool → Type 0 where
  new : Reached ([], record { pool = []; fresh = 0 })
  next : {s t : List ℕ × ObjectPool} → Reached s → Step s t → Reached t

got-Apart :
    (used pool : List ℕ) (fresh : ℕ)
    → Apart used (record { pool = pool; fresh = fresh })
    → Apart
        ((get (record { pool = pool; fresh = fresh })).0 ∷ used)
        (get (record { pool = pool; fresh = fresh })).1
unfolding get
got-Apart used [] fresh v = record {
  distinct = (
    elim (Bool-cases (has fresh (used ++ []))) [
      | inl t ↦ let lt = v.made fresh t in absurd (omega arith)
      | inr t ↦ t
    ],
    v.distinct,
  );
  made = λ a h. elim (Bool-cases (a == fresh)) [
    | inl t ↦ ground arith
    | inr t ↦ let lt = v.made a (ground arith) in omega arith
  ];
}
got-Apart used (x ∷ pool) fresh v =
    let (d, out) = Distinct-remove used x pool v.distinct in
    record {
      distinct = (out, d);
      made = λ a h. v.made a (ground (arith, has-append a used (x ∷ pool), has-append a used pool));
    }

gave-Apart :
    (ys : List ℕ) (a : ℕ) (zs : List ℕ) (p : ObjectPool)
    → Apart (ys ++ a ∷ zs) p
    → Apart (ys ++ zs) (put_object a p)
unfolding put_object
gave-Apart ys a zs p v =
    let (d, out) =
      Distinct-remove ys a (zs ++ p.pool)
        (subst Distinct (append_assoc ys (a ∷ zs) p.pool) v.distinct) in
    let e = sym (append_assoc ys zs p.pool) in
    record {
      distinct =
          Distinct-insert (ys ++ zs) a p.pool (subst Distinct e d)
            (subst (λ (xs : List ℕ). has a xs ≡ false) e out);
      made = λ b h. v.made b (
          ground (
            arith,
            has-append b (ys ++ zs) (a ∷ p.pool),
            has-append b ys zs,
            has-append b (ys ++ a ∷ zs) p.pool,
            has-append b ys (a ∷ zs),
          ));
    }

-- Connections that are taken from the pool and put back when they are closed: no object is in use twice, none is in use and in the pool,
-- and none is in the pool twice.
pub Reached-Apart : (used : List ℕ) (p : ObjectPool) → Reached (used, p) → Apart used p
Reached-Apart used p r = go r
  where
    go : {s : List ℕ × ObjectPool} → Reached s → Apart s.0 s.1
    go new = record { distinct = tt; made = λ a h. ground arith }
    go (next r (got used p)) = got-Apart used p.pool p.fresh (go r)
    go (next r (gave ys a zs p)) = gave-Apart ys a zs p (go r)
