-- ===== src/Static/Tests.antt =====
-- The manager of static files at concrete states.
use Prim.Native.Nat.{max}
use cppsp_ng.Base.{
  leb, ◌*◌, ◌%◌, ◌-◌, ◌/◌, ℕ, ◌≤◌, ◌<◌, ◌≡◌, ◌⊎◌, inl, inr, ◌^◌, refl, true, ltb, length, List,
  none, some, [], ◌∷◌, ◌++◌, if◌then◌else◌, arith,
}
use cppsp_ng.Base.Bytes.{Bytes, codes}
use cppsp_ng.Base.Int.{ℤ, pos, negsuc}
use cppsp_ng.Base.Search.{memchr}
use cppsp_ng.Cache.Defs.{key_string}
use cppsp_ng.Static.Defs.{Timespec, Stat, answer, System, Settings, StaticFileManager}
use cppsp_ng.Static.Files.{new_file}
use cppsp_ng.Static.Loading.{load}
use cppsp_ng.Static.Manager.{new_manager, create_handler, call_handler, Served, timer_cb}
use cppsp_ng.Static.Valid.{Valid}
use cppsp_ng.Static.Unlist.{Kept}
use cppsp_ng.Static.Load.{load_lem}
use cppsp_ng.Static.Reload.{Idle-Referenced, Outcome, call_handler_lem}
use cppsp_ng.Static.Create.{Handles, create_handler_lem}
use cppsp_ng.Static.Steps.{
  kept_files, Step, Reached, IsValid, new_manager-Valid, timer_cb_lem, Reached-IsValid,
  create_handler_again,
}
use cppsp_ng.Static.Mime.{
  find_type, load_mime_db, load_lines, mime_line, glob_line, find_mime, find_type-load_mime_db,
}
use cppsp_ng.Static.Send.{
  run, amounts, sent, sending_headers, sending_file, finished, aborted, send_lem,
}

abbrev noon : Timespec
noon = record { tv_sec = pos 43200; tv_nsec = 0 }

-- A disk with one kind of file, of three bytes.
abbrev page : Stat
page = record { is_file = true; size = 3; mtime = noon }

abbrev disk : System
disk = record {
  open_file = λ path. answer 7;
  fstat = λ fd. answer page;
  stat = λ path. answer page;
  mmap = λ fd size. some 4096;
  errno = 0;
}

abbrev settings : Settings
settings = record {
  base_path = codes "www/";
  max_mmap_size = 4194304;
  mime_type = λ file. codes "text/plain";
}

abbrev empty : StaticFileManager
empty = new_manager (λ _. new_file []) noon

abbrev index : Bytes
index = codes "index.html"

empty-Valid : Valid empty []
empty-Valid = new_manager-Valid (λ _. new_file []) noon

abbrev one : StaticFileManager
one = (create_handler index empty).1

one-Handles : Handles index (create_handler index empty).0 one []
one-Handles = create_handler_lem index empty [] empty-Valid

call_handler_lem_example :
    (out : Served) × (t : StaticFileManager) × (call_handler settings disk
        (create_handler index empty).0
        one
      ≡ some (out, t))
    × ((ys : List ℕ) × Valid t ys)
    × Outcome (create_handler index empty).0 one out t
call_handler_lem_example =
    call_handler_lem settings disk one [] (create_handler index empty).0 one-Handles.valid
      one-Handles.reference

-- With one file that is loaded.
abbrev full : StaticFileManager
full = load settings disk (create_handler index empty).0 one

full-Valid :
    (ys : List ℕ) × ((ys ≡ []) ⊎ (ys ≡ [] ++ (create_handler index empty).0 ∷ []))
    × Valid full ys
    × Kept one full
full-Valid =
    load_lem settings disk one [] (create_handler index empty).0 one-Handles.valid
      (Idle-Referenced [] (create_handler index empty).0 one-Handles.reference refl)

full_short : length full-Valid.0 < 2 ^ 32
full_short = elim full-Valid.1 [ inl e ↦ rw e (omega arith) | inr e ↦ rw e (omega arith) ]

timer_cb_lem_example :
    (t : StaticFileManager) × (timer_cb noon full ≡ some t)
    × Valid t (kept_files full full-Valid.0)
    × ((x : ℕ) → 1 ≤ (full.files x).ref_count → t.freed x ≡ full.freed x)
    × (t.capacity ≡ (
        if leb (full.loads_counter * 50 % 2 ^ 32) full.requests_counter
        then max 32 (full.capacity - full.capacity / 8)
        else full.capacity))
timer_cb_lem_example = timer_cb_lem noon full full-Valid.0 full-Valid.2 full_short

one-Reached : Reached settings one
one-Reached = Reached.next (Reached.new (λ _. new_file []) noon) (Step.create empty index)

Reached-IsValid_example : IsValid one
Reached-IsValid_example = Reached-IsValid one-Reached

create_handler_again_example :
    (create_handler index (create_handler index one).1).0 ≡ (create_handler index one).0
create_handler_again_example = create_handler_again index one-Reached

no_png : find_mime (load_mime_db (some (codes "# comment\n" ∷ []))) (codes "png") ≡ none
unfolding load_mime_db find_mime load_lines mime_line key_string memchr
no_png = refl

find_type-load_mime_db_example :
    find_type
      (load_mime_db
        (some ((codes "# comment\n" ∷ []) ++ glob_line (codes "image/png") (codes "png") ∷ [])))
      (codes "text/plain")
      (codes "logo.png")
    ≡ codes "image/png"
find_type-load_mime_db_example =
    find_type-load_mime_db (codes "# comment\n" ∷ []) [] (codes "image/png") b'p' (codes "ng")
      (codes "logo") (codes "text/plain") (ground arith) (ground arith) (ground arith) no_png

send_lem_example :
    (run (pos 5) (pos 81 ∷ amounts (1 ∷ 2 ∷ [])) sending_headers
      ≡ (if ltb (sent (1 ∷ 2 ∷ [])) 5 then sending_file (sent (1 ∷ 2 ∷ [])) else finished))
    × (5 ≤ length {A = ℕ} (1 ∷ 2 ∷ [])
        → run (pos 5) (pos 81 ∷ amounts (1 ∷ 2 ∷ [])) sending_headers ≡ finished)
    × ((rs : List ℤ) (k : ℕ) → run (pos 5) (negsuc k ∷ rs) sending_headers ≡ aborted)
send_lem_example = send_lem 5 80 (1 ∷ 2 ∷ []) (omega arith)
