-- ===== src/Static/Loading.antt =====
-- `doLoad` and `load`.
use cppsp_ng.Base.{
  ◌⊎◌, inl, inr, ℕ, ◌+◌, ◌-◌, ◌%◌, ◌^◌, not, Option, none, some, ◌++◌, ltb, leb, if◌then◌else◌,
}
use cppsp_ng.Base.Bytes.{Bytes, codes}
use cppsp_ng.Base.Int.{ℤ, pos, negsuc}
use cppsp_ng.Static.Defs.{
  Exception, unix_exception, cpoll_exception, Pointer, LoadedStaticFile, modify, wrap,
  StaticFileManager, Stat, Answer, failed, answer, System, Settings,
}
use cppsp_ng.Static.Files.{set_next, set_file}

-- `int` from `off_t`.
unfoldable pub to_int : ℕ → ℤ
to_int n = let m = n % 2 ^ 32 in if ltb m (2 ^ 31) then pos m else negsuc (2 ^ 32 - 1 - m)

-- The end of `doLoad`, with a mapping or a descriptor.
unfoldable pub loaded_as :
    Settings → Stat → Pointer → Option ℕ → LoadedStaticFile → LoadedStaticFile
unfolding to_int
loaded_as set st mapped fd f = record f {
  length = to_int st.size;
  mapped = mapped;
  fd = fd;
  mime_type = set.mime_type f.path;
  last_modified = st.mtime;
}

abbrev pub not_a_file : Exception
not_a_file = cpoll_exception (codes "Requested path is not a file") 21

-- What `doLoad` finds: an exception, or a file with its mapping or descriptor. Beside it stands how many descriptors and
-- mappings are open by then: `open` and `mmap` add one where they succeed, and `close` takes one away.
abbrev pub Found : Type 0
Found = ℕ × (Exception ⊎ (Stat × Pointer × Option ℕ))

-- `mmap` has run; `close(fd)` follows, whether it succeeded or not.
unfoldable pub try_map : Bytes → ℕ → ℕ → Stat → Pointer → Found
try_map path errno handles st none =
    (handles - 1, inl (unix_exception errno (codes "mmap " ++ path)))
try_map path errno handles st (some m) = (handles + 1 - 1, inr (st, some m, none))

unfoldable pub try_stat : Settings → System → Bytes → ℕ → ℕ → Answer Stat → Found
unfolding try_map
try_stat set os path handles fd (failed e) = (handles - 1, inl (unix_exception e path))
try_stat set os path handles fd (answer st) =
    if not st.is_file
    then (handles - 1, inl not_a_file)
    else if leb st.size set.max_mmap_size
    then try_map path os.errno handles st (os.mmap fd st.size)
    else (handles, inr (st, none, some fd))

unfoldable pub try_open : Settings → System → Bytes → ℕ → Answer ℕ → Found
unfolding try_stat
try_open set os path handles (failed e) = (handles, inl (unix_exception e path))
try_open set os path handles (answer fd) = try_stat set os path (handles + 1) fd (os.fstat fd)

unfoldable pub try_load : Settings → System → Bytes → ℕ → Found
unfolding try_open
try_load set os name handles =
    let path = set.base_path ++ name in try_open set os path handles (os.open_file path)

-- `nLoaded++`, and the file goes to the end of the list.
unfoldable pub link : ℕ → StaticFileManager → StaticFileManager
unfolding modify set_next
link a s =
    let last = s.last_to_free in
    record s {
      n_loaded = wrap (s.n_loaded + 1);
      files =
          set_next last (some a) (modify a (λ f. record f { prev = last; next = none }) s.files);
      last_to_free = some a;
      first_to_free = elim s.first_to_free [ none ↦ some a | some b ↦ some b ];
    }

-- What `load` does once `doLoad` has run on a file that has been looked at.
unfoldable pub load_result :
    Settings → ℕ → LoadedStaticFile → StaticFileManager → Found → StaticFileManager
unfolding loaded_as set_file link
load_result set a f s (handles, inl e) =
    set_file a (record f { last_exception = some e }) (record s { handles = handles })
load_result set a f s (handles, inr (st, mapped, fd)) =
    let t = set_file a (record (loaded_as set st mapped fd f) { last_exception = none }) s in
    link a (record t { loads_counter = wrap (t.loads_counter + 1); handles = handles })

unfoldable pub load : Settings → System → ℕ → StaticFileManager → StaticFileManager
unfolding try_load load_result
load set os a s =
    let f = record (s.files a) { last_check = s.curr_time } in
    load_result set a f s (try_load set os f.path s.handles)
