-- ===== src/Static/Send.antt =====
-- `StaticFileHandler`: the transfer of a file, which the socket drives with the results of its operations.
use mathlib.Core.List.{map}
use cppsp_ng.Base.{
  ℕ, suc, ◌+◌, ◌-◌, ◌^◌, ◌≤◌, ◌<◌, ◌≡◌, refl, ap, ◌∙◌, Bool, true, false, Bool-cases, inl, inr,
  List, [], ◌∷◌, length, ltb, leb, if◌then◌else◌, arith,
}
use cppsp_ng.Base.Int.{ℤ, pos, negsuc, pos_part, ltb_ℤ}
use cppsp_ng.Static.Defs.{LoadedStaticFile, is_set, wrap}

-- What the handler waits for: the end of `writevAll`, of `sendAll` with the headers, or of `sendFileFrom` at an
-- offset; or nothing, once it has destroyed itself and called `finish` or `abort` of the connection.
pub data Transfer : Type 0 where
  writing : ℕ → Transfer
  sending_headers : Transfer
  sending_file : ℕ → Transfer
  finished : Transfer
  aborted : Transfer

-- `size_t` from `int`.
unfoldable pub to_size : ℤ → ℕ
to_size (pos n) = n
to_size (negsuc n) = 2 ^ 64 - 1 - n

unfoldable pub start_transfer : LoadedStaticFile → ℕ → Transfer
unfolding to_size
start_transfer f headers_len =
    if is_set f.mapped then writing (wrap (headers_len + to_size f.length)) else sending_headers

abbrev pub is_positive : ℤ → Bool
is_positive r = ltb_ℤ (pos 0) r

-- `offset + r >= length`, where `r` is positive.
unfoldable pub reaches : ℕ → ℤ → ℤ → Bool
reaches offset r (pos n) = leb n (offset + pos_part r)
reaches offset r (negsuc n) = true

-- The callback of the operation that is under way, with the result.
unfoldable pub proceed : ℤ → ℤ → Transfer → Transfer
unfolding reaches
proceed len r (writing total) =
    if is_positive r then (if ltb (pos_part r) total then aborted else finished) else aborted
proceed len r sending_headers = if is_positive r then sending_file 0 else aborted
proceed len r (sending_file offset) =
    if is_positive r
    then (if reaches offset r len then finished else sending_file (offset + pos_part r))
    else finished
proceed len r finished = finished
proceed len r aborted = aborted

-- One result after the other.
unfoldable pub run : ℤ → List ℤ → Transfer → Transfer
unfolding proceed
run len [] t = t
run len (r ∷ rs) t = run len rs (proceed len r t)

-- The results of `sendfile`, each one more than the number.
abbrev pub amounts : List ℕ → List ℤ
amounts = map (λ n. pos (suc n))

abbrev pub sent : List ℕ → ℕ
sent [] = 0
sent (n ∷ ns) = suc n + sent ns

run-aborted : (len : ℤ) (rs : List ℤ) → run len rs aborted ≡ aborted
unfolding run proceed
run-aborted len [] = refl
run-aborted len (r ∷ rs) = run-aborted len rs

run-finished : (len : ℤ) (rs : List ℤ) → run len rs finished ≡ finished
unfolding run proceed
run-finished len [] = refl
run-finished len (r ∷ rs) = run-finished len rs

positive : (n : ℕ) → is_positive (pos (suc n)) ≡ true
positive n = ground arith

proceed-headers : (n k : ℕ) → proceed (pos n) (pos (suc k)) sending_headers ≡ sending_file 0
unfolding proceed
proceed-headers n k = ap (λ (b : Bool). if b then sending_file 0 else aborted) (positive k)

proceed_refused : (n k : ℕ) → proceed (pos n) (negsuc k) sending_headers ≡ aborted
unfolding proceed
proceed_refused n k =
    let e : is_positive (negsuc k) ≡ false = ground arith in
    ap (λ (b : Bool). if b then sending_file 0 else aborted) e

proceed-file :
    (n offset k : ℕ)
    → proceed (pos n) (pos (suc k)) (sending_file offset)
      ≡ (if leb n (offset + suc k) then finished else sending_file (offset + suc k))
unfolding proceed reaches
proceed-file n offset k =
    ap
      (λ (b : Bool).
        if b
        then (if leb n (offset + suc k) then finished else sending_file (offset + suc k))
        else finished)
      (positive k)

-- The loop of `doSendFile` goes on just as long as there is something left.
sending :
    (n offset : ℕ) (ns : List ℕ)
    → offset < n
    → run (pos n) (amounts ns) (sending_file offset)
      ≡ (if ltb (offset + sent ns) n then sending_file (offset + sent ns) else finished)
unfolding run
sending n offset [] lt =
    let e : offset ≡ offset + 0 = omega arith in
    let more : ltb (offset + 0) n ≡ true = ground arith in
    rw more (ap (λ (m : ℕ). sending_file m) e)
sending n offset (k ∷ ns) lt =
    ap (λ (t : Transfer). run (pos n) (amounts ns) t) (proceed-file n offset k)
    ∙ elim (Bool-cases (leb n (offset + suc k))) [
      | inl all ↦
          let done : ltb (offset + (suc k + sent ns)) n ≡ false = ground arith in
          rw (all, done) (run-finished (pos n) (amounts ns))
      | inr more ↦
          let e : offset + suc k + sent ns ≡ offset + (suc k + sent ns) = omega arith in
          rw more (
            sending n (offset + suc k) ns (ground arith)
            ∙ ap (λ (m : ℕ). if ltb m n then sending_file m else finished) e)
    ]

sent-length : (ns : List ℕ) → length ns ≤ sent ns
sent-length [] = omega arith
sent-length (n ∷ ns) = omega (arith, sent-length ns)

-- A file that is not mapped, of `n` bytes, of which there is one at least: once the headers are sent, and as long as each `sendfile` sends
-- something, the transfer goes on from where it is while bytes are left and finishes when all have been
-- sent; it has finished after `n` results at the latest. A negative result of sending the headers aborts the transfer.
pub send_lem :
    (n h : ℕ) (ns : List ℕ)
    → 0 < n
    → (run (pos n) (pos (suc h) ∷ amounts ns) sending_headers
        ≡ (if ltb (sent ns) n then sending_file (sent ns) else finished))
      × (n ≤ length ns → run (pos n) (pos (suc h) ∷ amounts ns) sending_headers ≡ finished)
      × ((rs : List ℤ) (k : ℕ) → run (pos n) (negsuc k ∷ rs) sending_headers ≡ aborted)
unfolding run
send_lem n h ns lt =
    let zero_add : 0 + sent ns ≡ sent ns = omega arith in
    let loop =
      ap (λ (t : Transfer). run (pos n) (amounts ns) t) (proceed-headers n h)
      ∙ sending n 0 ns lt
      ∙ ap (λ (m : ℕ). if ltb m n then sending_file m else finished) zero_add in
    (
      loop,
      λ le.
          let done : ltb (sent ns) n ≡ false = ground (arith, sent-length ns) in
          loop ∙ ap (λ (b : Bool). if b then sending_file (sent ns) else finished) done,
      λ rs k.
          ap (λ (t : Transfer). run (pos n) rs t) (proceed_refused n k) ∙ run-aborted (pos n) rs,
    )
