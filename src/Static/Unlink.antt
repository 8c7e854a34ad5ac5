-- ===== src/Static/Unlink.antt =====
-- `unlink` and `link` on a list that is well linked.
use cppsp_ng.Base.{
  ℕ, ◌≡◌, refl, sym, ◌∙◌, true, false, ◌||◌, Bool-cases, inl, inr, none, some, List, [], ◌∷◌, ◌++◌,
  ◌==◌, if◌then◌else◌, arith,
}
use cppsp_ng.Static.Defs.{Pointer, Files, modify, is_set, StaticFileManager}
use cppsp_ng.Static.Files.{is_at, set_next}
use cppsp_ng.Static.Loading.{link}
use cppsp_ng.Static.Manager.{unlink, ends_agree}
use cppsp_ng.Static.Links.{
  has, has-eq, first_or, last_or, Chain, Distinct, has-append, last_apart, Distinct-append,
  Distinct-remove, Distinct-left, Distinct-right, Distinct-snoc, Chain-split, Chain-join,
  Chain-renext, Chain-reprev, set_next-next, set_next-prev, set_prev-prev, set_prev-next,
}

pub record Linked (f : Files) (first last : Pointer) (xs : List ℕ) : Type 0 where
  pub chain : Chain f none xs none
  pub first_eq : first ≡ first_or xs none
  pub last_eq : last ≡ last_or none xs
  pub distinct : Distinct xs

pub first_apart : (a : ℕ) (xs : List ℕ) → has a xs ≡ false → is_at (first_or xs none) a ≡ false
first_apart a [] out = refl
first_apart a (x ∷ xs) out = ground arith

pub end_apart : (a : ℕ) (xs : List ℕ) → has a xs ≡ false → is_at (last_or none xs) a ≡ false
end_apart a [] out = refl
end_apart a (x ∷ xs) out = last_apart a x xs out

pub last_or-append :
    (p : Pointer) (xs ys : List ℕ) → last_or p (xs ++ ys) ≡ last_or (last_or p xs) ys
last_or-append p [] ys = refl
last_or-append p (x ∷ xs) ys = last_or-append (some x) xs ys

first_removed :
    (ys : List ℕ) (a : ℕ) (zs : List ℕ)
    → has a ys ≡ false
    → (if is_at (first_or (ys ++ a ∷ zs) none) a
        then first_or zs none
        else first_or (ys ++ a ∷ zs) none)
      ≡ first_or (ys ++ zs) none
first_removed [] a zs out = let me : (a == a) ≡ true = ground arith in rw me refl
first_removed (y ∷ ys) a zs out = let no : (y == a) ≡ false = ground arith in rw no refl

last_removed :
    (ys : List ℕ) (a : ℕ) (zs : List ℕ)
    → has a zs ≡ false
    → (if is_at (last_or none (ys ++ a ∷ zs)) a
        then last_or none ys
        else last_or none (ys ++ a ∷ zs))
      ≡ last_or none (ys ++ zs)
last_removed ys a [] out =
    let me : (a == a) ≡ true = ground arith in
    rw (last_or-append none ys (a ∷ []), last_or-append none ys [], me) refl
last_removed ys a (z ∷ zs) out =
    rw (last_or-append none ys (a ∷ z ∷ zs), last_or-append none ys (z ∷ zs), last_apart a z zs out)
      refl

last_or-is_set : (x : ℕ) (xs : List ℕ) → is_set (last_or (some x) xs) ≡ true
last_or-is_set x [] = refl
last_or-is_set x (y ∷ xs) = last_or-is_set y xs

end_lem :
    (ys : List ℕ) (a : ℕ) (zs : List ℕ)
    → (is_set (first_or zs none) || is_at (last_or none (ys ++ a ∷ zs)) a) ≡ true
end_lem ys a [] = rw (last_or-append none ys (a ∷ [])) (ground arith)
end_lem ys a (z ∷ zs) = refl

front_lem :
    (ys : List ℕ) (a : ℕ) (zs : List ℕ)
    → (is_set (last_or none ys) || is_at (first_or (ys ++ a ∷ zs) none) a) ≡ true
front_lem [] a zs = ground arith
front_lem (y ∷ ys) a zs = rw (last_or-is_set y ys) refl

module _ (s : StaticFileManager) (ys : List ℕ) (a : ℕ) (zs : List ℕ)
    (l : Linked s.files s.first_to_free s.last_to_free (ys ++ a ∷ zs)) where
  parts :
      Chain s.files none ys (some a)
      × ((s.files a).prev ≡ last_or none ys)
      × ((s.files a).next ≡ first_or zs none)
      × Chain s.files (some a) zs none
  parts =
      let (c, e) = Chain-split s.files none none ys (a ∷ zs) l.chain in
      let (p, n, d) = e in (c, p, n, d)

  not_before : has a ys ≡ false
  not_before = elim (Bool-cases (has a ys)) [
    | inl h ↦ let no = Distinct-append ys (a ∷ zs) l.distinct a h in ground arith
    | inr h ↦ h
  ]

  not_behind : has a zs ≡ false
  not_behind =
      let (d, out) = Distinct-remove ys a zs l.distinct in ground (arith, has-append a ys zs)

  apart : (x : ℕ) → has x ys ≡ true → has x zs ≡ false
  apart x h = Distinct-append ys zs (Distinct-remove ys a zs l.distinct).0 x h

  apart2 : (x : ℕ) → has x zs ≡ true → has x ys ≡ false
  apart2 x h = elim (Bool-cases (has x ys)) [
    | inl t ↦ let no = apart x t in ground arith
    | inr t ↦ t
  ]

  unlink-next :
      (x : ℕ)
      → ((unlink a s).files x).next
        ≡ (if is_at (last_or none ys) x then first_or zs none else (s.files x).next)
  unfolding unlink
  unlink-next x =
      let (c, p, n, d) = parts in
      let f = set_next (s.files a).prev (s.files a).next s.files in
      set_prev-next (f a).next (f a).prev f x
      ∙ set_next-next (s.files a).prev (s.files a).next s.files x
      ∙ rw (p, n) refl

  unlink-prev :
      (x : ℕ)
      → ((unlink a s).files x).prev
        ≡ (if is_at (first_or zs none) x then last_or none ys else (s.files x).prev)
  unfolding unlink
  unlink-prev x =
      let (c, p, n, d) = parts in
      let f = set_next (s.files a).prev (s.files a).next s.files in
      let pa : (f a).prev ≡ last_or none ys = set_next-prev _ _ s.files a ∙ p in
      let na : (f a).next ≡ first_or zs none =
        set_next-next (s.files a).prev (s.files a).next s.files a
        ∙ rw (p, end_apart a ys not_before) n in
      set_prev-prev (f a).next (f a).prev f x
      ∙ rw (pa, na, set_next-prev (s.files a).prev (s.files a).next s.files x) refl

  pub unlink-Linked :
      Linked (unlink a s).files (unlink a s).first_to_free (unlink a s).last_to_free (ys ++ zs)
  unfolding unlink
  unlink-Linked =
      let (c, p, n, d) = parts in
      let (distinct, out) = Distinct-remove ys a zs l.distinct in
      let g = (unlink a s).files in
      record {
        chain =
            Chain-join g none none ys zs
              (Chain-renext s.files g none (some a) (first_or zs none) ys
                (Distinct-left ys zs distinct)
                (λ x h. unlink-prev x ∙ rw (first_apart x zs (apart x h)) refl)
                (λ x h. unlink-next x) c)
              (Chain-reprev s.files g (some a) (last_or none ys) none zs
                (Distinct-right ys zs distinct)
                (λ x h. unlink-next x ∙ rw (end_apart x ys (apart2 x h)) refl)
                (λ x h. unlink-prev x) d);
        first_eq = rw (l.first_eq, n) (first_removed ys a zs not_before);
        last_eq = rw (l.last_eq, p) (last_removed ys a zs not_behind);
        distinct = distinct;
      }

  pub ends_agree-Linked : ends_agree a s ≡ true
  unfolding ends_agree
  ends_agree-Linked =
      let (c, p, n, d) = parts in
      rw (p, n, l.first_eq, l.last_eq, end_lem ys a zs, front_lem ys a zs) refl

-- The elements of a list and of a new end.
first_added :
    (xs : List ℕ) (a : ℕ)
    → (elim (first_or xs none) [ none ↦ some a | some b ↦ some b ]) ≡ first_or (xs ++ a ∷ []) none
first_added [] a = refl
first_added (x ∷ xs) a = refl

module _ (s : StaticFileManager) (xs : List ℕ) (a : ℕ)
    (l : Linked s.files s.first_to_free s.last_to_free xs) (out : has a xs ≡ false) where
  link-next :
      (x : ℕ)
      → ((link a s).files x).next
        ≡ (if is_at (last_or none xs) x then some a else if x == a then none else (s.files x).next)
  unfolding link modify
  link-next x = set_next-next s.last_to_free (some a) _ x ∙ rw l.last_eq (ground arith)

  link-prev :
      (x : ℕ) → ((link a s).files x).prev ≡ (if x == a then last_or none xs else (s.files x).prev)
  unfolding link modify
  link-prev x = set_next-prev s.last_to_free (some a) _ x ∙ rw l.last_eq (ground arith)

  pub link-Linked :
      Linked (link a s).files (link a s).first_to_free (link a s).last_to_free (xs ++ a ∷ [])
  unfolding link
  link-Linked =
      let g = (link a s).files in
      let me : (a == a) ≡ true = ground arith in
      record {
        chain =
            Chain-join g none none xs (a ∷ [])
              (Chain-renext s.files g none none (some a) xs l.distinct
                (λ x h.
                  let no : (x == a) ≡ false = ground (arith, has-eq x a xs out h) in
                  link-prev x ∙ rw no refl)
                (λ x h.
                  let no : (x == a) ≡ false = ground (arith, has-eq x a xs out h) in
                  link-next x ∙ rw no refl)
                l.chain)
              (link-prev a ∙ rw me refl, link-next a ∙ rw (end_apart a xs out, me) refl, tt);
        first_eq = rw l.first_eq (first_added xs a);
        last_eq = sym (last_or-append none xs (a ∷ []));
        distinct = Distinct-snoc xs a l.distinct out;
      }
