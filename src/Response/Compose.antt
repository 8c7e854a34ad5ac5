-- ===== src/Response/Compose.antt =====
-- `composeHeaders`: both of its branches make the head that HTTP asks for.
use cppsp_ng.Base.{
  ℕ, ◌≤◌, ◌<◌, ◌≡◌, refl, ap, ◌∙◌, inl, inr, Bool, true, false, ◌&&◌, Bool-cases, ltb, none, some,
  ◌++◌, append_assoc, length, arith,
}
use mathlib.Core.Path.{subst}
use cppsp_ng.Base.Bytes.{Bytes}
use cppsp_ng.Base.Memory.{span}
use cppsp_ng.Decimal.Digits.{IsLog}
use cppsp_ng.Response.Defs.{
  CString, Response, is_default, initial_space, View, total_len, place_head, compose_fast,
  compose_slow, compose_branch, compose_headers, add_header,
}
use cppsp_ng.Response.Head.{added, first_lines, length_lines}
use cppsp_ng.Response.Added.{Adds, added-Adds, add_header-Adds, add_content_length_header-Adds}
use cppsp_ng.Response.Branches.{Composed, head_lines, compose_branch-Composed}

-- The body and the length of the headers are not touched by a branch.
pub record SameBody (r q : Response) : Type 0 where
  pub buffer_same : q.buffer ≡ r.buffer
  pub len_le : r.headers_len ≤ q.headers_len
  pub status_same : q.status ≡ r.status
  pub keep_alive_same : q.keep_alive ≡ r.keep_alive

compose_slow-SameBody : (r : Response) → SameBody r (compose_slow r).0
unfolding compose_slow
compose_slow-SameBody r = elim (Bool-cases (ltb initial_space (total_len r))) [
  | inl t ↦
      rw (t, compose_slow)
        (record {
          buffer_same = refl;
          len_le = omega arith;
          status_same = refl;
          keep_alive_same = refl;
        })
  | inr t ↦
      rw (t, compose_slow)
        (record {
          buffer_same = refl;
          len_le = omega arith;
          status_same = refl;
          keep_alive_same = refl;
        })
]

compose_branch-SameBody : (r : Response) → SameBody r (compose_branch r).0
unfolding compose_branch compose_fast place_head
compose_branch-SameBody r = elim (Bool-cases (is_default r.status && is_default r.content_type)) [
  | inl t ↦ rw t (record {
    buffer_same = refl;
    len_le = omega arith;
    status_same = refl;
    keep_alive_same = refl;
  })
  | inr t ↦ rw t (compose_slow-SameBody r)
]

first_lines-Adds : {r q : Response} (s : Bytes) → Adds r s q → first_lines q ≡ first_lines r
unfolding first_lines
first_lines-Adds {r} {q} s a =
    ap (λ (c : CString). head_lines c q.content_type q.keep_alive) a.status_eq
    ∙ ap (λ (c : CString). head_lines r.status c q.keep_alive) a.content_type_eq
    ∙ ap (λ (b : Bool). head_lines r.status r.content_type b) a.keep_alive_eq

module _ (log10 : ℕ → ℕ) where
  -- What `composeHeaders` has added by the time it fills in the first lines.
  abbrev pub Tail : Response → ℕ → Bytes → Bytes
  Tail r n date = added r ++ (date ++ length_lines log10 n)

  abbrev pub Replies : Response → ℕ → Bytes → Bool → Response × View → Type 0
  Replies r n date true (q, view) = (view ≡ none) × (added q ≡ Tail r n date)
  Replies r n date false (q, view) =
      (sp : ℕ) × (len : ℕ) × (view ≡ some (sp, len))
      × (span q.headers sp len ≡ first_lines r ++ Tail r n date)
      × (added q ≡ Tail r n date)

  Composed-Replies :
      (r p : Response) (n : ℕ) (date : Bytes) (b : Bool) (out : Response × View)
      → added p ≡ Tail r n date
      → first_lines p ≡ first_lines r
      → Composed p b out
      → Replies r n date b out
  Composed-Replies r p n date true out tail first (e, same) = (e, same ∙ tail)
  Composed-Replies r p n date false out tail first (sp, len, e, view, same) = (
    sp,
    len,
    e,
    view ∙ ap (λ (k : Bytes). k ++ added p) first ∙ ap (λ (k : Bytes). first_lines r ++ k) tail,
    same ∙ tail,
  )

module _ (log10 : ℕ → ℕ) (bound : ℕ) (log : IsLog log10 bound) where
  -- `composeHeaders` returns, for a content length below the bound of `log10` and headers that have been reset. When
  -- the first lines (the status, the connection and the content type) fit into the 160 bytes that are free, the view is the whole head as HTTP writes it: these lines, what was added, the date, the content length and the
  -- empty line. This holds of both branches. Otherwise the view is empty, and the date and the length have still been added.
  -- The body, the status and the mark for keeping the connection open are as before, and the headers have not become shorter.
  pub compose_headers_lem :
      (r : Response) (n : ℕ) (date : Bytes)
      → initial_space ≤ r.headers_len
      → n < bound
      → (out : Response × View) × (compose_headers log10 n date r ≡ some out)
        × Replies log10 r n date (ltb initial_space (length (first_lines r))) out
        × SameBody r out.0
  unfolding compose_headers
  compose_headers_lem r n date le lt =
      let a = add_header-Adds date r in
      let (tail, le1) = added-Adds date le a in
      let (p, e, b) = add_content_length_header-Adds log10 bound log n (add_header date r) lt in
      let (tail2, le2) = added-Adds (length_lines log10 n) le1 b in
      let first : first_lines p ≡ first_lines r = first_lines-Adds _ b ∙ first_lines-Adds _ a in
      let all : added p ≡ Tail log10 r n date =
        tail2
        ∙ ap (λ (k : Bytes). k ++ length_lines log10 n) tail
        ∙ append_assoc (added r) date (length_lines log10 n) in
      let c =
        Composed-Replies log10 r p n date _ (compose_branch p) all first
          (compose_branch-Composed p le2) in
      let same = compose_branch-SameBody p in
      rw (e, compose_headers)
        (
          compose_branch p,
          refl,
          subst
              (λ (k : Bytes).
                Replies log10 r n date (ltb initial_space (length k)) (compose_branch p))
              first c,
          record {
            buffer_same = same.buffer_same ∙ b.buffer_eq ∙ a.buffer_eq;
            len_le = omega (arith, same.len_le, a.wrote.at_eq, b.wrote.at_eq);
            status_same = same.status_same ∙ b.status_eq ∙ a.status_eq;
            keep_alive_same = same.keep_alive_same ∙ b.keep_alive_eq ∙ a.keep_alive_eq;
          },
        )
