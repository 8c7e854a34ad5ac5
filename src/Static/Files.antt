-- ===== src/Static/Files.antt =====
-- The writes to the links of files, the map of files, and `FileRef`.
use cppsp_ng.Base.{ℕ, suc, ◌-◌, Bool, true, false, not, ◌&&◌, none, some, ◌==◌, if◌then◌else◌}
use cppsp_ng.Base.Bytes.{Bytes, codes}
use cppsp_ng.Base.Int.{pos}
use cppsp_ng.Base.Equal.{equal}
use cppsp_ng.Static.Defs.{
  zero_time, Pointer, LoadedStaticFile, loaded, Files, modify, StaticFileManager,
}

-- `file == p`.
abbrev pub is_at : Pointer → ℕ → Bool
is_at none a = false
is_at (some b) a = b == a

-- A write through a pointer that is tested before.
unfoldable pub set_next : Pointer → Pointer → Files → Files
unfolding modify
set_next none v files = files
set_next (some p) v files = modify p (λ f. record f { next = v }) files

unfoldable pub set_prev : Pointer → Pointer → Files → Files
unfolding modify
set_prev none v files = files
set_prev (some p) v files = modify p (λ f. record f { prev = v }) files

unfoldable pub assign_cache : Bytes → Pointer → (Bytes → Pointer) → Bytes → Pointer
unfolding equal
assign_cache path v cache key = if equal key path then v else cache key

-- `new`, `cache[key] = f`, and the fields that are written.
unfoldable pub new_file : Bytes → LoadedStaticFile
new_file path = record {
  next = none;
  prev = none;
  path = path;
  mime_type = codes "";
  last_exception = none;
  mapped = none;
  last_modified = zero_time;
  last_check = zero_time;
  fd = none;
  length = pos 0;
  ref_count = 0;
}

unfoldable pub add_file : Bytes → StaticFileManager → ℕ × StaticFileManager
unfolding assign_cache modify new_file
add_file path s = (
  s.fresh,
  record s {
    files = modify s.fresh (λ _. new_file path) s.files;
    fresh = suc s.fresh;
    cache = assign_cache path (some s.fresh) s.cache;
  },
)

unfoldable pub get_file : Bytes → StaticFileManager → ℕ × StaticFileManager
unfolding add_file
get_file path s = elim (s.cache path) [ none ↦ add_file path s | some a ↦ (a, s) ]

unfoldable pub assign_freed : ℕ → (ℕ → Bool) → ℕ → Bool
assign_freed a freed i = if i == a then true else freed i

unfoldable pub delete : Pointer → (ℕ → Bool) → ℕ → Bool
unfolding assign_freed
delete none freed = freed
delete (some a) freed = assign_freed a freed

unfoldable pub remove_file : Bytes → StaticFileManager → StaticFileManager
unfolding delete assign_cache
remove_file path s = record s {
  freed = delete (s.cache path) s.freed;
  cache = assign_cache path none s.cache;
}

unfoldable pub set_file : ℕ → LoadedStaticFile → StaticFileManager → StaticFileManager
unfolding modify
set_file a f s = record s { files = modify a (λ _. f) s.files }

-- The constructors of `FileRef`, and its destructor.
unfoldable pub ref : ℕ → StaticFileManager → StaticFileManager
unfolding set_file
ref a s = set_file a (record (s.files a) { ref_count = suc (s.files a).ref_count }) s

unfoldable pub unref : ℕ → StaticFileManager → StaticFileManager
unfolding set_file remove_file loaded
unref a s =
    let t = set_file a (record (s.files a) { ref_count = (s.files a).ref_count - 1 }) s in
    if (t.files a).ref_count == 0 && not (loaded (t.files a))
    then remove_file (t.files a).path t
    else t
