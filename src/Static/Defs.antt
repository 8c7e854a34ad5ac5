-- ===== src/Static/Defs.antt =====
-- `LoadedStaticFile`, and the state of `StaticFileManager`. A file has an address, and a pointer is an address or
-- null; the addresses from `fresh` on are those that `new` has not given yet, and `freed` tells which have been deleted.
use cppsp_ng.Base.{
  ℕ, ◌%◌, ◌^◌, Bool, true, false, ◌||◌, Option, none, some, ltb, ◌==◌, if◌then◌else◌,
}
use cppsp_ng.Base.Bytes.{Bytes}
use cppsp_ng.Base.Int.{ℤ, pos, negsuc, ltb_ℤ}

pub record Timespec : Type 0 where
  pub tv_sec : ℤ
  pub tv_nsec : ℕ

unfoldable pub ts_compare : Timespec → Timespec → ℤ
ts_compare a b =
    if ltb_ℤ a.tv_sec b.tv_sec
    then negsuc 0
    else if ltb_ℤ b.tv_sec a.tv_sec
    then pos 1
    else if ltb a.tv_nsec b.tv_nsec
    then negsuc 0
    else if ltb b.tv_nsec a.tv_nsec
    then pos 1
    else pos 0

abbrev pub zero_time : Timespec
zero_time = record { tv_sec = pos 0; tv_nsec = 0 }

-- The exceptions of the library, by what they are made from.
pub data Exception : Type 0 where
  unix_exception : ℕ → Bytes → Exception
  cpoll_exception : Bytes → ℕ → Exception

abbrev pub Pointer : Type 0
Pointer = Option ℕ

-- `fd` is `none` for -1. A pointer to the manager is left out, since there is one manager.
pub record LoadedStaticFile : Type 0 where
  pub next : Pointer
  pub prev : Pointer
  pub path : Bytes
  pub mime_type : Bytes
  pub last_exception : Option Exception
  pub mapped : Pointer
  pub last_modified : Timespec
  pub last_check : Timespec
  pub fd : Option ℕ
  pub length : ℤ
  pub ref_count : ℕ

abbrev pub is_set {ℓ} : {A : Type ℓ} → Option A → Bool
is_set none = false
is_set (some a) = true

unfoldable pub loaded : LoadedStaticFile → Bool
loaded f = is_set f.mapped || is_set f.fd

abbrev pub Files : Type 0
Files = ℕ → LoadedStaticFile

unfoldable pub modify : ℕ → (LoadedStaticFile → LoadedStaticFile) → Files → Files
modify a g files i = if i == a then g (files i) else files i

-- `uint32_t`.
abbrev pub wrap : ℕ → ℕ
wrap n = n % 2 ^ 32

-- `handles` counts the descriptors and the mappings that were opened for files and not given back; a mapping
-- that failed with `MAP_FAILED` counts, since the code keeps and unmaps it like another.
pub record StaticFileManager : Type 0 where
  pub files : Files
  pub fresh : ℕ
  pub freed : ℕ → Bool
  pub cache : Bytes → Pointer
  pub first_to_free : Pointer
  pub last_to_free : Pointer
  pub requests_counter : ℕ
  pub loads_counter : ℕ
  pub capacity : ℕ
  pub n_loaded : ℕ
  pub curr_time : Timespec
  pub handles : ℕ

abbrev pub target_cache_hit_ratio : ℕ
target_cache_hit_ratio = 50

abbrev pub min_capacity : ℕ
min_capacity = 32

abbrev pub max_capacity : ℕ
max_capacity = 1024

abbrev pub max_purge_per_cycle : ℕ
max_purge_per_cycle = 128

-- What the file system answers, where the failures carry `errno`. A file is described by whether it is a
-- regular file or a link, its size and its time of modification.
pub record Stat : Type 0 where
  pub is_file : Bool
  pub size : ℕ
  pub mtime : Timespec

pub data Answer {ℓ} (A : Type ℓ) : Type ℓ where
  failed : ℕ → Answer A
  answer : A → Answer A

pub record System : Type 0 where
  pub open_file : Bytes → Answer ℕ
  pub fstat : ℕ → Answer Stat
  pub stat : Bytes → Answer Stat
  -- `none` for a null pointer, which no documented failure gives.
  pub mmap : ℕ → ℕ → Pointer
  -- `errno` after the `mmap`.
  pub errno : ℕ

-- The settings of the manager: where the files are, up to which size they are mapped, and their types.
pub record Settings : Type 0 where
  pub base_path : Bytes
  pub max_mmap_size : ℕ
  pub mime_type : Bytes → Bytes
