-- ===== src/Response/Added.antt =====
-- `addHeader` and `addContentLengthHeader`: what they add to the headers.
use cppsp_ng.Base.{
  ℕ, ◌+◌, ◌-◌, ◌≤◌, ◌<◌, ◌≡◌, refl, ap, ◌∙◌, some, ◌++◌, append_assoc, length, arith,
}
use mathlib.Core.Path.{subst}
use cppsp_ng.Base.Bytes.{Bytes, codes}
use cppsp_ng.Base.Memory.{span}
use cppsp_ng.Base.Find.{span-eq}
use cppsp_ng.Base.Cursor.{put, write, Wrote, Wrote-append, Wrote-put, write-Wrote, span-add}
use cppsp_ng.Decimal.Digits.{IsLog, itoa64-Wrote}
use cppsp_ng.Response.Defs.{
  Response, initial_space, headers_end, add_header, add_content_length_header,
}
use cppsp_ng.Response.Head.{added, length_lines}

-- All but the buffer of the headers is the same, and the text has been added to it.
pub record Adds (r : Response) (s : Bytes) (q : Response) : Type 0 where
  pub wrote : Wrote (headers_end r) s (headers_end q)
  pub status_eq : q.status ≡ r.status
  pub content_type_eq : q.content_type ≡ r.content_type
  pub keep_alive_eq : q.keep_alive ≡ r.keep_alive
  pub buffer_eq : q.buffer ≡ r.buffer

pub added-Adds :
    {r q : Response} (s : Bytes)
    → initial_space ≤ r.headers_len
    → Adds r s q
    → (added q ≡ added r ++ s) × (initial_space ≤ q.headers_len)
added-Adds {r} {q} s le a =
    let n = r.headers_len - initial_space in
    let len : q.headers_len - initial_space ≡ n + length s = omega (arith, a.wrote.at_eq) in
    (
      ap (λ (k : ℕ). span q.headers initial_space k) len
          ∙ span-add q.headers initial_space n (length s)
          ∙ ap (λ (t : Bytes). t ++ span q.headers (initial_space + n) (length s))
              (span-eq q.headers r.headers initial_space initial_space n
                (λ i h. a.wrote.below (initial_space + i) (omega arith)))
          ∙ ap (λ (k : ℕ). added r ++ span q.headers k (length s)) (omega arith)
          ∙ ap (λ (t : Bytes). added r ++ t) a.wrote.text_eq,
      omega (arith, a.wrote.at_eq),
    )

pub add_header-Adds : (s : Bytes) (r : Response) → Adds r s (add_header s r)
unfolding add_header
add_header-Adds s r = record {
  wrote = write-Wrote s (headers_end r);
  status_eq = refl;
  content_type_eq = refl;
  keep_alive_eq = refl;
  buffer_eq = refl;
}

module _ (log10 : ℕ → ℕ) (bound : ℕ) (log : IsLog log10 bound) where
  pub add_content_length_header-Adds :
      (n : ℕ) (r : Response)
      → n < bound
      → (q : Response) × (add_content_length_header log10 n r ≡ some q)
        × Adds r (length_lines log10 n) q
  unfolding add_content_length_header length_lines
  add_content_length_header-Adds n r lt =
      let c = write (codes "Content-Length: ") (headers_end r) in
      let (d, e, w) = itoa64-Wrote log10 bound log n c lt in
      let v = Wrote-put _ 10 (
        Wrote-put _ 13 (
          Wrote-put _ 10 (
            Wrote-put _ 13
              (Wrote-append _ _ (write-Wrote (codes "Content-Length: ") (headers_end r)) w)))) in
      let end = put 10 (put 13 (put 10 (put 13 d))) in
      rw (e, add_content_length_header)
        (
          _,
          refl,
          record {
            wrote = subst (λ (s : Bytes). Wrote (headers_end r) s end) (simp append_assoc) v;
            status_eq = refl;
            content_type_eq = refl;
            keep_alive_eq = refl;
            buffer_eq = refl;
          },
        )
