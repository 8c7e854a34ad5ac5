-- ===== src/Response/Branches.antt =====
-- The two branches of `composeHeaders`.
use cppsp_ng.Base.{
  ℕ, ◌+◌, ◌-◌, ◌≤◌, ◌≡◌, refl, sym, ap, ◌∙◌, inl, inr, Bool, true, false, ◌&&◌, Bool-cases, ltb,
  if◌then◌else◌, none, some, ◌++◌, append_assoc, length, length-append, take, arith,
}
use mathlib.Core.Path.{subst}
use cppsp_ng.Base.Bytes.{Bytes, codes}
use cppsp_ng.Base.Memory.{span}
use cppsp_ng.Base.Find.{span-eq}
use cppsp_ng.Base.Cursor.{Cursor, write, Only, Only-append, Only-put, write-Only, span-add}
use cppsp_ng.Response.Defs.{
  CString, default, other, Response, status_bytes, content_type_bytes, is_default, initial_space,
  View, fast_head, total_len, place_head, compose_fast, write_head, compose_slow, compose_branch,
}
use cppsp_ng.Response.Head.{added, crlf, connection_text, first_lines}

-- The first lines in front of what has been added, in one view.
front :
    (r : Response) (sp : ℕ) (text : Bytes) (d : Cursor)
    → Only (record { mem = r.headers; at = sp }) text d
    → sp + length text ≡ initial_space
    → initial_space ≤ r.headers_len
    → (span d.mem sp (r.headers_len - sp) ≡ text ++ added r)
      × (added (record r { headers = d.mem }) ≡ added r)
front r sp text d w e le =
    let n = r.headers_len - initial_space in
    let len : r.headers_len - sp ≡ length text + n = omega arith in
    let same : span d.mem initial_space n ≡ added r =
      span-eq d.mem r.headers initial_space initial_space n
        (λ i h. w.above (initial_space + i) (omega (arith, w.wrote.at_eq))) in
    (
      ap (λ (k : ℕ). span d.mem sp k) len
          ∙ span-add d.mem sp (length text) n
          ∙ ap (λ (t : Bytes). t ++ span d.mem (sp + length text) n) w.wrote.text_eq
          ∙ ap (λ (k : ℕ). text ++ span d.mem k n) e
          ∙ ap (λ (t : Bytes). text ++ t) same,
      same,
    )

-- What a branch gives, depending on whether the first lines are too long.
abbrev pub Composed : Response → Bool → Response × View → Type 0
Composed r true (q, view) = (view ≡ none) × (added q ≡ added r)
Composed r false (q, view) =
    (sp : ℕ) × (len : ℕ) × (view ≡ some (sp, len))
    × (span q.headers sp len ≡ first_lines r ++ added r)
    × (added q ≡ added r)

lines_length :
    (s t : Bytes) (b : Bool)
    → 9 + length s + 2 + (if b then 24 else 19) + 14 + length t + 2
      ≡ length (
          codes "HTTP/1.1 "
          ++ (s
              ++ (crlf
                  ++ (codes "Connection: "
                      ++ (connection_text b
                          ++ (crlf ++ (codes "Content-Type: " ++ (t ++ crlf))))))))
lines_length s t true = simp length-append (omega arith)
lines_length s t false = simp length-append (omega arith)

total_len-eq : (r : Response) → total_len r ≡ length (first_lines r)
unfolding total_len first_lines
total_len-eq r =
    lines_length (status_bytes r.status) (content_type_bytes r.content_type) r.keep_alive

connection-Only :
    (b : Bool) (c : Cursor)
    → Only c
        (crlf ++ (codes "Connection: " ++ (connection_text b ++ (crlf ++ codes "Content-Type: "))))
        (if b
          then write (take 40 (codes "\r\nConnection: keep-alive\r\nContent-Type: ")) c
          else write (take 35 (codes "\r\nConnection: close\r\nContent-Type: ")) c)
connection-Only true c = write-Only _ c
connection-Only false c = write-Only _ c

write_head-Only : (r : Response) (c : Cursor) → Only c (first_lines r) (write_head r c)
unfolding write_head first_lines
write_head-Only r c =
    let a =
      Only-append _ _ (write-Only (codes "HTTP/1.1 ") c) (write-Only (status_bytes r.status) _) in
    let b = Only-append _ _ a (connection-Only r.keep_alive _) in
    let e =
      Only-put _ 10
        (Only-put _ 13 (Only-append _ _ b (write-Only (content_type_bytes r.content_type) _))) in
    subst (λ (s : Bytes). Only c s (write_head r c)) (simp append_assoc) e

compose_slow-Composed :
    (r : Response)
    → initial_space ≤ r.headers_len
    → Composed r (ltb initial_space (length (first_lines r))) (compose_slow r)
unfolding compose_slow
compose_slow-Composed r le = elim (Bool-cases (ltb initial_space (length (first_lines r)))) [
  | inl long ↦ rw (total_len-eq r, long) (refl, refl)
  | inr fits ↦
      let small : length (first_lines r) ≤ initial_space = ground arith in
      let sp = initial_space - length (first_lines r) in
      let w = write_head-Only r (record { mem = r.headers; at = sp }) in
      let (text, same) = front r sp (first_lines r) _ w (omega arith) le in
      rw (total_len-eq r, fits) (sp, r.headers_len - sp, refl, text, same)
]

-- The text of the fast branch.
fast_head_lem :
    (b : Bool)
    → take (fast_head b).0 (fast_head b).1
      ≡ codes "HTTP/1.1 "
        ++ (status_bytes default
            ++ (crlf
                ++ (codes "Connection: "
                    ++ (connection_text b
                        ++ (crlf
                            ++ (codes "Content-Type: " ++ (content_type_bytes default ++ crlf)))))))
unfolding fast_head
fast_head_lem true = refl
fast_head_lem false = refl

fast_head_length :
    (b : Bool)
    → (length (take (fast_head b).0 (fast_head b).1) ≡ (fast_head b).0)
      × ((fast_head b).0 ≤ initial_space)
unfolding fast_head
fast_head_length true = (refl, omega arith)
fast_head_length false = (refl, omega arith)

abbrev pub head_lines : CString → CString → Bool → Bytes
head_lines s t b =
    codes "HTTP/1.1 "
    ++ (status_bytes s
        ++ (crlf
            ++ (codes "Connection: "
                ++ (connection_text b
                    ++ (crlf ++ (codes "Content-Type: " ++ (content_type_bytes t ++ crlf)))))))

first_lines_default :
    (r : Response)
    → r.status ≡ default
    → r.content_type ≡ default
    → first_lines r ≡ take (fast_head r.keep_alive).0 (fast_head r.keep_alive).1
unfolding first_lines
first_lines_default r s t =
    ap (λ (c : CString). head_lines c r.content_type r.keep_alive) s
    ∙ ap (λ (c : CString). head_lines default c r.keep_alive) t
    ∙ sym (fast_head_lem r.keep_alive)

compose_fast-Composed :
    (r : Response)
    → r.status ≡ default
    → r.content_type ≡ default
    → initial_space ≤ r.headers_len
    → Composed r (ltb initial_space (length (first_lines r))) (compose_fast r)
unfolding compose_fast place_head
compose_fast-Composed r s t le =
    let lines = first_lines_default r s t in
    let (len, small) = fast_head_length r.keep_alive in
    let all : length (first_lines r) ≡ (fast_head r.keep_alive).0 =
      ap (λ (k : Bytes). length k) lines ∙ len in
    elim (Bool-cases (ltb initial_space (length (first_lines r)))) [
      | inl long ↦ ground arith
      | inr fits ↦
          let sp = initial_space - (fast_head r.keep_alive).0 in
          let text = take (fast_head r.keep_alive).0 (fast_head r.keep_alive).1 in
          let c : Cursor = record { mem = r.headers; at = sp } in
          let (view, same) = front r sp text _ (write-Only text c) (omega arith) le in
          rw fits (
            sp,
            r.headers_len - sp,
            refl,
            view ∙ ap (λ (k : Bytes). k ++ added r) (sym lines),
            same,
          )
    ]

is_default-eq : (c : CString) → (is_default c ≡ true) → c ≡ default
is_default-eq default h = refl
is_default-eq (other s) h = ground arith

pub compose_branch-Composed :
    (r : Response)
    → initial_space ≤ r.headers_len
    → Composed r (ltb initial_space (length (first_lines r))) (compose_branch r)
unfolding compose_branch
compose_branch-Composed r le =
    elim (Bool-cases (is_default r.status && is_default r.content_type)) [
      | inl d ↦ rw d (
          compose_fast-Composed r (is_default-eq r.status (ground arith))
            (is_default-eq r.content_type (ground arith)) le)
      | inr d ↦ rw d (compose_slow-Composed r le)
    ]
