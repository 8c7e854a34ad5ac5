-- ===== src/Static/Manager.antt =====
-- `unload` and what the manager makes of `load` and it. `none` means that an assertion of `unload` failed.
use cppsp_ng.Base.{
  ℕ, zero, suc, ◌+◌, ◌-◌, ◌*◌, ◌/◌, ◌^◌, Bool, true, false, not, ◌&&◌, ◌||◌, Option, none, some,
  ◌++◌, ltb, leb, ◌==◌, if◌then◌else◌,
}
use cppsp_ng.Base.Bytes.{Bytes}
use cppsp_ng.Base.Int.{ℤ, pos, negsuc, pos_part, neg_part, ltb_ℤ}
use cppsp_ng.Static.Defs.{
  Timespec, ts_compare, Exception, unix_exception, LoadedStaticFile, is_set, loaded, Files, wrap,
  StaticFileManager, target_cache_hit_ratio, min_capacity, max_capacity, max_purge_per_cycle, Stat,
  Answer, failed, answer, System, Settings,
}
use cppsp_ng.Static.Files.{
  is_at, set_next, set_prev, assign_cache, get_file, assign_freed, set_file, ref,
}
use cppsp_ng.Static.Loading.{load}

-- `munmap` and `close`, each where there is something to give back.
abbrev pub one_if : Bool → ℕ
one_if true = 1
one_if false = 0

unfoldable pub do_unload : ℕ → StaticFileManager → StaticFileManager
unfolding set_file
do_unload a s =
    let f = s.files a in
    let t = set_file a (record f { mapped = none; fd = none }) s in
    record t { handles = s.handles - one_if (is_set f.mapped) - one_if (is_set f.fd) }

-- The assertions of `unload`.
unfoldable pub ends_agree : ℕ → StaticFileManager → Bool
ends_agree a s =
    let f = s.files a in
    (is_set f.next || is_at s.last_to_free a) && (is_set f.prev || is_at s.first_to_free a)

-- The file leaves the list: its neighbours are read again after each write.
unfoldable pub unlink : ℕ → StaticFileManager → StaticFileManager
unfolding set_next set_prev
unlink a s =
    let f = s.files a in
    let files = set_next f.prev f.next s.files in
    record s {
      first_to_free = if is_at s.first_to_free a then f.next else s.first_to_free;
      last_to_free = if is_at s.last_to_free a then f.prev else s.last_to_free;
      files = set_prev (files a).next (files a).prev files;
    }

-- The end of `unload`.
unfoldable pub drop_idle : ℕ → StaticFileManager → StaticFileManager
unfolding assign_cache assign_freed
drop_idle a s =
    if (s.files a).ref_count == 0
    then record s {
      cache = assign_cache (s.files a).path none s.cache;
      freed = assign_freed a s.freed;
    }
    else s

unfoldable pub unload : ℕ → StaticFileManager → Option StaticFileManager
unfolding do_unload ends_agree unlink drop_idle
unload a s =
    let t = do_unload a s in
    let u = record t { n_loaded = wrap (t.n_loaded + (2 ^ 32 - 1)) } in
    if ends_agree a u then some (drop_idle a (unlink a u)) else none

unfoldable pub pop : StaticFileManager → Option StaticFileManager
unfolding unload
pop s = elim s.first_to_free [ none ↦ some s | some a ↦ unload a s ]

unfoldable pub raise_capacity : StaticFileManager → StaticFileManager
raise_capacity s =
    if ltb s.capacity (wrap (s.loads_counter * 2))
    then (let ramped =
          if ltb s.requests_counter (wrap (s.loads_counter * target_cache_hit_ratio))
          then wrap (s.capacity + s.capacity / 8)
          else s.capacity in
        record s { capacity = if ltb max_capacity ramped then max_capacity else ramped })
    else s

unfoldable pub load_and_evict : Settings → System → ℕ → StaticFileManager → Option StaticFileManager
unfolding load pop raise_capacity
load_and_evict set os a s =
    let t = load set os a s in
    elim (if ltb t.capacity t.n_loaded then pop t else some t) [
      | none ↦ none
      | some u ↦ some (raise_capacity u)
    ]

-- The loop of `timerCB`.
unfoldable pub purge : ℕ → StaticFileManager → Option StaticFileManager
unfolding pop
purge zero s = some s
purge (suc n) s =
    if leb s.n_loaded s.capacity then some s else elim (pop s) [ none ↦ none | some t ↦ purge n t ]

unfoldable pub shrink : ℕ → ℕ
shrink capacity =
    let smaller = capacity - capacity / 8 in
    if ltb smaller min_capacity then min_capacity else smaller

unfoldable pub timer_cb : Timespec → StaticFileManager → Option StaticFileManager
unfolding purge shrink
timer_cb now s =
    let t = record s { curr_time = now } in
    let out =
      if leb (wrap (t.loads_counter * target_cache_hit_ratio)) t.requests_counter
      then purge max_purge_per_cycle (record t { capacity = shrink t.capacity })
      else some t in
    elim out [ none ↦ none | some u ↦ some (record u { loads_counter = 0; requests_counter = 0 }) ]

unfoldable pub minus_two : Timespec → Timespec
minus_two t = record t {
  tv_sec =
      if ltb_ℤ t.tv_sec (pos 2)
      then negsuc (suc (neg_part t.tv_sec) - pos_part t.tv_sec)
      else pos (pos_part t.tv_sec - 2);
}

-- `length != st_size`, where the size is no less than 0.
abbrev pub is_size : ℤ → ℕ → Bool
is_size (pos n) size = n == size
is_size (negsuc n) size = false

abbrev pub is_same : ℤ → Bool
is_same (pos n) = n == 0
is_same (negsuc n) = false

unfoldable pub changed : LoadedStaticFile → Stat → Bool
unfolding ts_compare
changed f st = not (is_same (ts_compare f.last_modified st.mtime)) || not (is_size f.length st.size)

-- The end of `reloadIfStale`, for a loaded file.
unfoldable pub reload_checked :
    Settings
    → System
    → ℕ
    → StaticFileManager
    → Bytes
    → LoadedStaticFile
    → Answer Stat
    → Option StaticFileManager
unfolding unload changed set_file load
reload_checked set os a s path f (failed e) =
    unload a (set_file a (record f { last_exception = some (unix_exception e path) }) s)
reload_checked set os a s path f (answer st) =
    let t = set_file a f s in
    if changed f st
    then elim (unload a t) [ none ↦ none | some u ↦ some (load set os a u) ]
    else some t

unfoldable pub reload_if_stale :
    Settings → System → ℕ → StaticFileManager → Option StaticFileManager
unfolding minus_two ts_compare loaded load reload_checked
reload_if_stale set os a s =
    let f = s.files a in
    let path = set.base_path ++ f.path in
    if ltb_ℤ (pos 0) (ts_compare f.last_check (minus_two s.curr_time))
    then some s
    else if not (loaded f)
    then some (load set os a s)
    else reload_checked set os a s path (record f { last_check = s.curr_time }) (os.stat path)

-- What the handler of a file does with the connection.
pub data Served : Type 0 where
  aborted : Served
  handled : Exception → Served
  started : Served

-- The handler where the file is not loaded.
unfoldable pub serve_failed : StaticFileManager → Option Exception → Served × StaticFileManager
serve_failed t none = (aborted, t)
serve_failed t (some e) = (handled e, t)

-- The handler after `reloadIfStale`, up to the start of the transfer: `StaticFileHandler` holds a reference, and
-- `start` counts the request.
unfoldable pub serve_file : ℕ → StaticFileManager → Served × StaticFileManager
unfolding loaded ref serve_failed
serve_file a t =
    if loaded (t.files a)
    then (let u = ref a t in
        (started, record u { requests_counter = wrap (u.requests_counter + 1) }))
    else serve_failed t (t.files a).last_exception

unfoldable pub create_handler : Bytes → StaticFileManager → ℕ × StaticFileManager
unfolding get_file ref
create_handler path s = let (a, t) = get_file path s in (a, ref a t)

unfoldable pub call_handler :
    Settings → System → ℕ → StaticFileManager → Option (Served × StaticFileManager)
unfolding reload_if_stale serve_file
call_handler set os a s = elim (reload_if_stale set os a s) [
  | none ↦ none
  | some t ↦ some (serve_file a t)
]

-- The constructor, before its call of `timerCB`. The memory holds any files at the addresses that are not in use.
unfoldable pub new_manager : Files → Timespec → StaticFileManager
new_manager files now = record {
  files = files;
  fresh = 0;
  freed = λ _. false;
  cache = λ _. none;
  first_to_free = none;
  last_to_free = none;
  requests_counter = 0;
  loads_counter = 0;
  capacity = 128;
  n_loaded = 0;
  curr_time = now;
  handles = 0;
}
