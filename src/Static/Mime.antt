-- ===== src/Static/Mime.antt =====
-- The table of types: `loadMimeDB` on the lines of the file that it reads, or without that file, and the function
-- that looks a type up. A map that keeps the first entry of a key is a list of pairs.
use cppsp_ng.Base.{
  ℕ, suc, ◌-◌, ◌≡◌, refl, ◌&&◌, Bool-cases, inl, inr, Option, none, some, List, [], ◌∷◌, ◌++◌,
  length, length-append, take, drop, take-append_self, drop-append_suc, ◌==◌, cons-eq,
  if◌then◌else◌, arith,
}
use cppsp_ng.Base.Bytes.{Bytes, codes}
use cppsp_ng.Base.Equal.{equal, equal_refl}
use cppsp_ng.Base.Search.{Lacks, memchr, memchr-append}
use cppsp_ng.Cache.Defs.{key_string}

abbrev pub MimeDb : Type 0
MimeDb = List (Bytes × Bytes)

unfoldable pub find_mime : MimeDb → Bytes → Option Bytes
find_mime [] ext = none
find_mime ((e, mime) ∷ db) ext =
    let rest = find_mime db ext in if equal e ext then some mime else rest

-- What stands behind the last dot.
unfoldable pub extension : Bytes → Option Bytes
extension [] = none
extension (c ∷ s) = elim (extension s) [
  | some e ↦ some e
  | none ↦ if c == b'.' then some s else none
]

abbrev pub find_extension : MimeDb → Option Bytes → Option Bytes
find_extension db none = none
find_extension db (some ext) = find_mime db ext

abbrev pub or_default : Bytes → Option Bytes → Bytes
or_default default_mime none = default_mime
or_default default_mime (some mime) = mime

unfoldable pub find_type : MimeDb → Bytes → Bytes → Bytes
unfolding extension find_mime
find_type db default_mime file = or_default default_mime (find_extension db (extension file))

-- The part behind the colon: a pattern `*.` with an extension.
unfoldable pub glob_extension : Bytes → Option Bytes
glob_extension (b1 ∷ b2 ∷ b3 ∷ s) = if b1 == b'*' && b2 == b'.' then some (b3 ∷ s) else none
glob_extension s = none

-- One line, as `getline` gives it: with its line end, and read as a C string. `none` goes to the next line.
abbrev pub with_mime : Bytes → Option Bytes → Option (Bytes × Bytes)
with_mime mime none = none
with_mime mime (some ext) = some (ext, mime)

abbrev pub at_colon : Bytes → Option ℕ → Option (Bytes × Bytes)
at_colon line none = none
at_colon line (some i) = with_mime (take i line) (glob_extension (drop (suc i) line))

unfoldable pub mime_line : Bytes → Option (Bytes × Bytes)
unfolding key_string memchr glob_extension
mime_line raw =
    let s = key_string raw in let line = take (length s - 1) s in at_colon line (memchr b':' line)

abbrev pub insert_mime : Option (Bytes × Bytes) → MimeDb → MimeDb
insert_mime none db = db
insert_mime (some entry) db = entry ∷ db

unfoldable pub load_lines : List Bytes → MimeDb
unfolding mime_line
load_lines [] = []
load_lines (line ∷ lines) = insert_mime (mime_line line) (load_lines lines)

-- The table that is used when the file cannot be opened.
abbrev pub built_in : MimeDb
built_in =
    (codes "htm", codes "text/html")
    ∷ (codes "html", codes "text/html")
    ∷ (codes "txt", codes "text/plain")
    ∷ (codes "css", codes "text/css")
    ∷ (codes "js", codes "application/javascript")
    ∷ (codes "jpg", codes "image/jpeg")
    ∷ (codes "jpeg", codes "image/jpeg")
    ∷ (codes "png", codes "image/png")
    ∷ (codes "gif", codes "image/gif")
    ∷ (codes "webp", codes "image/webp")
    ∷ (codes "cpp", codes "text/x-c++src")
    ∷ (codes "cxx", codes "text/x-c++src")
    ∷ (codes "cc", codes "text/x-c++src")
    ∷ (codes "C", codes "text/x-c++src")
    ∷ (codes "c", codes "text/x-csrc")
    ∷ (codes "h", codes "text/x-csrc")
    ∷ (codes "H", codes "text/x-c++src")
    ∷ (codes "hpp", codes "text/x-c++src")
    ∷ (codes "hxx", codes "text/x-c++src")
    ∷ []

-- The lines are none if the file cannot be opened.
unfoldable pub load_mime_db : Option (List Bytes) → MimeDb
unfolding load_lines
load_mime_db none = built_in
load_mime_db (some lines) = load_lines lines

pub extension-Lacks : (s : Bytes) → Lacks b'.' s → extension s ≡ none
unfolding extension
extension-Lacks [] h = refl
extension-Lacks (c ∷ s) (ne, h) = ground (arith, extension-Lacks s h)

pub extension-append :
    (base ext : Bytes) → Lacks b'.' ext → extension (base ++ b'.' ∷ ext) ≡ some ext
unfolding extension
extension-append [] ext h = ground (arith, extension-Lacks ext h)
extension-append (c ∷ base) ext h = ground (arith, extension-append base ext h)

key_string-Lacks : (s : Bytes) → Lacks 0 s → key_string s ≡ s
unfolding key_string
key_string-Lacks [] h = refl
key_string-Lacks (c ∷ s) (ne, h) = ground (arith, key_string-Lacks s h)

-- A line of the file.
abbrev pub glob_line : Bytes → Bytes → Bytes
glob_line mime ext = (mime ++ b':' ∷ b'*' ∷ b'.' ∷ ext) ++ 10 ∷ []

mime_line-glob_line :
    (mime : Bytes) (c : ℕ) (ext : Bytes)
    → Lacks 0 (glob_line mime (c ∷ ext))
    → Lacks b':' mime
    → mime_line (glob_line mime (c ∷ ext)) ≡ some (c ∷ ext, mime)
unfolding mime_line glob_extension
mime_line-glob_line mime c ext z h =
    let text = mime ++ b':' ∷ b'*' ∷ b'.' ∷ c ∷ ext in
    let len : length (text ++ 10 ∷ []) - 1 ≡ length text =
      omega (arith, length-append text (10 ∷ [])) in
    rw
      (
        key_string-Lacks _ z,
        len,
        take-append_self text (10 ∷ []),
        memchr-append b':' mime (b'*' ∷ b'.' ∷ c ∷ ext) h,
        drop-append_suc mime b':' (b'*' ∷ b'.' ∷ c ∷ ext),
        take-append_self mime (b':' ∷ b'*' ∷ b'.' ∷ c ∷ ext),
      )
      refl

inserted :
    (o : Option (Bytes × Bytes)) (d1 d2 d3 : MimeDb)
    → d1 ≡ d2 ++ d3
    → insert_mime o d1 ≡ insert_mime o d2 ++ d3
inserted none d1 d2 d3 e = e
inserted (some entry) d1 d2 d3 e = cons-eq refl e

load_lines-append : (ks ls : List Bytes) → load_lines (ks ++ ls) ≡ load_lines ks ++ load_lines ls
unfolding load_lines
load_lines-append [] ls = refl
load_lines-append (k ∷ ks) ls =
    inserted (mime_line k) (load_lines (ks ++ ls)) (load_lines ks) (load_lines ls)
      (load_lines-append ks ls)

find_mime-append :
    (ks ls : MimeDb) (ext : Bytes)
    → find_mime ks ext ≡ none
    → find_mime (ks ++ ls) ext ≡ find_mime ls ext
unfolding find_mime
find_mime-append [] ls ext h = refl
find_mime-append ((e, m) ∷ ks) ls ext h = elim (Bool-cases (equal e ext)) [
  | inl t ↦ absurd (cc (rw t at h))
  | inr t ↦ rw t (find_mime-append ks ls ext (rw t at h))
]

first_line :
    (lines : List Bytes) (mime : Bytes) (c : ℕ) (ext : Bytes)
    → Lacks 0 (glob_line mime (c ∷ ext))
    → Lacks b':' mime
    → find_mime (load_lines (glob_line mime (c ∷ ext) ∷ lines)) (c ∷ ext) ≡ some mime
unfolding load_lines find_mime
first_line lines mime c ext z h = rw (mime_line-glob_line mime c ext z h, equal_refl (c ∷ ext)) refl

-- A file gets the type of the first line of the table that has the extension behind the last dot of its name.
-- The line is `type:*.extension`, with no 0 byte and an extension of one byte at least that holds no dot; the type holds no colon.
pub find_type-load_mime_db :
    (before after : List Bytes) (mime : Bytes) (c : ℕ) (ext base default_mime : Bytes)
    → Lacks 0 (glob_line mime (c ∷ ext))
    → Lacks b':' mime
    → Lacks b'.' (c ∷ ext)
    → find_mime (load_mime_db (some before)) (c ∷ ext) ≡ none
    → find_type
        (load_mime_db (some (before ++ glob_line mime (c ∷ ext) ∷ after)))
        default_mime
        (base ++ b'.' ∷ c ∷ ext)
      ≡ mime
unfolding find_type load_mime_db
find_type-load_mime_db before after mime c ext base default_mime z h d miss =
    rw
      (
        extension-append base (c ∷ ext) d,
        load_lines-append before (glob_line mime (c ∷ ext) ∷ after),
        find_mime-append (load_lines before) (load_lines (glob_line mime (c ∷ ext) ∷ after))
            (c ∷ ext) miss,
        first_line after mime c ext z h,
      )
      refl
