-- ===== src/Static/Links.antt =====
-- The list from `firstToFree` to `lastToFree`: doubly linked segments of files, and what the writes of `load` and
-- `unload` to their links make of them.
use mathlib.Core.Bool.{or_assoc}
use cppsp_ng.Base.{
  ℕ, ◌≡◌, ◌≢◌, refl, ap, ◌∙◌, Bool, true, false, ◌||◌, Bool-cases, inl, inr, none, some, List, [],
  ◌∷◌, ◌++◌, ◌==◌, if◌then◌else◌, arith,
}
use cppsp_ng.Static.Defs.{Pointer, Files, modify}
use cppsp_ng.Static.Files.{is_at, set_next, set_prev}

abbrev pub has : ℕ → List ℕ → Bool
has a [] = false
has a (x ∷ xs) = (a == x) || has a xs

abbrev pub first_or : List ℕ → Pointer → Pointer
first_or [] p = p
first_or (x ∷ xs) p = some x

abbrev pub last_or : Pointer → List ℕ → Pointer
last_or p [] = p
last_or p (x ∷ xs) = last_or (some x) xs

-- The files of the list follow each other, from `p` in front of them to `n` behind them.
abbrev pub Chain : Files → Pointer → List ℕ → Pointer → Type 0
Chain f p [] n = Unit
Chain f p (x ∷ xs) n = ((f x).prev ≡ p) × ((f x).next ≡ first_or xs n) × Chain f (some x) xs n

abbrev pub Distinct : List ℕ → Type 0
Distinct [] = Unit
Distinct (x ∷ xs) = (has x xs ≡ false) × Distinct xs

pub has-append : (x : ℕ) (ys zs : List ℕ) → has x (ys ++ zs) ≡ (has x ys || has x zs)
has-append x [] zs = refl
has-append x (y ∷ ys) zs = ap (λ (b : Bool). x == y || b) (has-append x ys zs) ∙ rw or_assoc refl

pub has-eq : (a x : ℕ) (xs : List ℕ) → has x xs ≡ false → has a xs ≡ true → a ≢ x
has-eq a x xs out h e = ground (arith, e)

pub last_or-has :
    (x : ℕ) (xs : List ℕ) (y : ℕ) → last_or (some x) xs ≡ some y → has y (x ∷ xs) ≡ true
last_or-has x [] y e = ground arith
last_or-has x (z ∷ xs) y e = ground (arith, last_or-has z xs y e)

pub last_apart :
    (x y : ℕ) (xs : List ℕ) → has x (y ∷ xs) ≡ false → is_at (last_or (some y) xs) x ≡ false
last_apart x y [] out = ground arith
last_apart x y (z ∷ xs) out = last_apart x z xs (ground arith)

pub Distinct-append :
    (xs ys : List ℕ) → Distinct (xs ++ ys) → (a : ℕ) → has a xs ≡ true → has a ys ≡ false
Distinct-append [] ys d a h = ground arith
Distinct-append (x ∷ xs) ys (out, d) a h = elim (Bool-cases (a == x)) [
  | inl t ↦ ground (arith, has-append x xs ys)
  | inr t ↦ Distinct-append xs ys d a (ground arith)
]

pub Distinct-remove :
    (xs : List ℕ) (a : ℕ) (ys : List ℕ)
    → Distinct (xs ++ a ∷ ys)
    → Distinct (xs ++ ys) × (has a (xs ++ ys) ≡ false)
Distinct-remove [] a ys (out, d) = (d, out)
Distinct-remove (x ∷ xs) a ys (out, d) =
    let (e, gone) = Distinct-remove xs a ys d in
    let h = has-append x xs (a ∷ ys) in
    let k = has-append x xs ys in ((ground (arith, h, k), e), ground (arith, h, k, gone))

pub Distinct-right : (xs ys : List ℕ) → Distinct (xs ++ ys) → Distinct ys
Distinct-right [] ys d = d
Distinct-right (x ∷ xs) ys (out, d) = Distinct-right xs ys d

pub Distinct-left : (xs ys : List ℕ) → Distinct (xs ++ ys) → Distinct xs
Distinct-left [] ys d = tt
Distinct-left (x ∷ xs) ys (out, d) = (ground (arith, has-append x xs ys), Distinct-left xs ys d)

pub Distinct-snoc : (xs : List ℕ) (a : ℕ) → Distinct xs → has a xs ≡ false → Distinct (xs ++ a ∷ [])
Distinct-snoc [] a d out = (refl, tt)
Distinct-snoc (x ∷ xs) a (e, d) out =
    (ground (arith, has-append x xs (a ∷ [])), Distinct-snoc xs a d (ground arith))

pub has-split :
    (a : ℕ) (xs : List ℕ) → has a xs ≡ true → (ys : List ℕ) × (zs : List ℕ) × (xs ≡ ys ++ a ∷ zs)
has-split a [] h = ground arith
has-split a (x ∷ xs) h = elim (Bool-cases (a == x)) [
  | inl t ↦ let e : x ≡ a = ground arith in ([], xs, ap (λ (k : ℕ). k ∷ xs) e)
  | inr t ↦
      let (ys, zs, e) = has-split a xs (ground arith) in (x ∷ ys, zs, ap (λ (k : List ℕ). x ∷ k) e)
]

pub Chain-split :
    (f : Files) (p n : Pointer) (xs ys : List ℕ)
    → Chain f p (xs ++ ys) n
    → Chain f p xs (first_or ys n) × Chain f (last_or p xs) ys n
Chain-split f p n [] ys c = (tt, c)
Chain-split f p n (x ∷ []) ys (e, g, c) = ((e, g, tt), c)
Chain-split f p n (x ∷ y ∷ xs) ys (e, g, c) =
    let (l, r) = Chain-split f (some x) n (y ∷ xs) ys c in ((e, g, l), r)

pub Chain-join :
    (f : Files) (p n : Pointer) (xs ys : List ℕ)
    → Chain f p xs (first_or ys n)
    → Chain f (last_or p xs) ys n
    → Chain f p (xs ++ ys) n
Chain-join f p n [] ys l r = r
Chain-join f p n (x ∷ []) ys (e, g, c) r = (e, g, r)
Chain-join f p n (x ∷ y ∷ xs) ys (e, g, c) r = (e, g, Chain-join f (some x) n (y ∷ xs) ys c r)

-- Only the files of the segment matter.
pub Chain-same :
    (f g : Files) (p n : Pointer) (xs : List ℕ)
    → ((x : ℕ) → has x xs ≡ true → ((g x).prev ≡ (f x).prev) × ((g x).next ≡ (f x).next))
    → Chain f p xs n
    → Chain g p xs n
Chain-same f g p n [] same c = tt
Chain-same f g p n (x ∷ xs) same (e, h, c) =
    let (s, t) = same x (ground arith) in
    (s ∙ e, t ∙ h, Chain-same f g (some x) n xs (λ y i. same y (ground arith)) c)

-- The last file of the segment gets another successor.
pub Chain-renext :
    (f g : Files) (p n m : Pointer) (xs : List ℕ)
    → Distinct xs
    → ((x : ℕ) → has x xs ≡ true → (g x).prev ≡ (f x).prev)
    → ((x : ℕ)
        → has x xs ≡ true
        → (g x).next ≡ (if is_at (last_or none xs) x then m else (f x).next))
    → Chain f p xs n
    → Chain g p xs m
Chain-renext f g p n m [] d sp sn c = tt
Chain-renext f g p n m (x ∷ []) d sp sn (e, h, c) =
    let me : (x == x) ≡ true = ground arith in
    (sp x (rw me refl) ∙ e, sn x (rw me refl) ∙ rw me refl, tt)
Chain-renext f g p n m (x ∷ y ∷ xs) (out, d) sp sn (e, h, c) =
    let me : has x (x ∷ y ∷ xs) ≡ true = ground arith in
    let apart : is_at (last_or (some y) xs) x ≡ false = last_apart x y xs out in
    (
      sp x me ∙ e,
      sn x me ∙ rw apart h,
      Chain-renext f g (some x) n m (y ∷ xs) d (λ z i. sp z (ground arith))
          (λ z i. sn z (ground arith)) c,
    )

-- The first file of the segment gets another predecessor.
pub Chain-reprev :
    (f g : Files) (p q n : Pointer) (xs : List ℕ)
    → Distinct xs
    → ((x : ℕ) → has x xs ≡ true → (g x).next ≡ (f x).next)
    → ((x : ℕ)
        → has x xs ≡ true
        → (g x).prev ≡ (if is_at (first_or xs none) x then q else (f x).prev))
    → Chain f p xs n
    → Chain g q xs n
Chain-reprev f g p q n [] d sn sp c = tt
Chain-reprev f g p q n (x ∷ xs) (out, d) sn sp (e, h, c) =
    let me : (x == x) ≡ true = ground arith in
    (
      sp x (rw me refl) ∙ rw me refl,
      sn x (rw me refl) ∙ h,
      Chain-same f g (some x) n xs
          (λ y i.
            let other : (x == y) ≡ false = ground (arith, has-eq y x xs out i) in
            (sp y (ground arith) ∙ rw other refl, sn y (ground arith)))
          c,
    )

-- The writes through a pointer.
pub set_next-next :
    (o v : Pointer) (f : Files) (x : ℕ)
    → (set_next o v f x).next ≡ (if is_at o x then v else (f x).next)
unfolding set_next modify
set_next-next none v f x = refl
set_next-next (some p) v f x = ground arith

pub set_next-prev : (o v : Pointer) (f : Files) (x : ℕ) → (set_next o v f x).prev ≡ (f x).prev
unfolding set_next modify
set_next-prev none v f x = refl
set_next-prev (some p) v f x = ground arith

pub set_prev-prev :
    (o v : Pointer) (f : Files) (x : ℕ)
    → (set_prev o v f x).prev ≡ (if is_at o x then v else (f x).prev)
unfolding set_prev modify
set_prev-prev none v f x = refl
set_prev-prev (some p) v f x = ground arith

pub set_prev-next : (o v : Pointer) (f : Files) (x : ℕ) → (set_prev o v f x).next ≡ (f x).next
unfolding set_prev modify
set_prev-next none v f x = refl
set_prev-next (some p) v f x = ground arith
