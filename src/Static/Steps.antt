-- ===== src/Static/Steps.antt =====
-- The steps of the manager, and what holds after any of them.
use mathlib.Core.Path.{subst}
use Prim.Native.Nat.{min, max}
use cppsp_ng.Base.{
  ℕ, zero, suc, ◌+◌, ◌-◌, ◌*◌, ◌/◌, ◌%◌, ◌^◌, ◌≤◌, ◌<◌, ◌≡◌, refl, sym, ap, ◌∙◌, false, Bool-cases,
  inl, inr, some, of_some, List, [], length, drop, ltb, leb, if◌then◌else◌, arith,
}
use cppsp_ng.Base.Bytes.{Bytes}
use cppsp_ng.Static.Defs.{
  Timespec, Files, loaded, StaticFileManager, System, Settings, wrap, target_cache_hit_ratio,
  max_purge_per_cycle, max_capacity,
}
use cppsp_ng.Static.Files.{ref, unref}
use cppsp_ng.Static.Loading.{load}
use cppsp_ng.Static.Manager.{
  raise_capacity, load_and_evict, purge, shrink, timer_cb, Served, create_handler, call_handler,
  new_manager,
}
use cppsp_ng.Static.Valid.{Valid}
use cppsp_ng.Static.Unload.{pop_lem}
use cppsp_ng.Static.Purge.{purge_lem}
use cppsp_ng.Static.Load.{load_lem}
use cppsp_ng.Static.Reload.{
  Referenced, Idle-Referenced, loaded-has, Valid-counters, ref-Valid, call_handler_lem,
}
use cppsp_ng.Static.Create.{create_handler_lem, get_file-at}
use cppsp_ng.Static.Release.{unref_lem}

-- An eighth less, but not below 32.
abbrev pub shrunk_capacity : ℕ → ℕ
shrunk_capacity c = max 32 (c - c / 8)

shrink_lem : (c : ℕ) → shrink c ≡ shrunk_capacity c
unfolding shrink
shrink_lem c = ground arith

-- The loaded files that are left when the timer purges: all, or all but the oldest of those that are too many.
abbrev pub kept_files : StaticFileManager → List ℕ → List ℕ
kept_files s xs =
    if leb (s.loads_counter * 50 % 2 ^ 32) s.requests_counter
    then drop (min 128 (length xs - shrunk_capacity s.capacity)) xs
    else xs

purge-IsValid :
    (n : ℕ) (s : StaticFileManager) (xs : List ℕ)
    → Valid s xs
    → (t : StaticFileManager) × (purge n s ≡ some t) × ((ys : List ℕ) × Valid t ys)
unfolding purge
purge-IsValid zero s xs v = (s, refl, (xs, v))
purge-IsValid (suc n) s xs v = elim (Bool-cases (leb s.n_loaded s.capacity)) [
  | inl fits ↦ rw fits (s, refl, (xs, v))
  | inr more ↦
      let (t, e, w, k) = pop_lem s xs v in
      let (u, f, out) = purge-IsValid n t (drop 1 xs) w in rw (more, e) (u, f, out)
]

module _ (now : Timespec) (s : StaticFileManager) (xs : List ℕ) (v : Valid s xs) where
  abbrev shrunk : StaticFileManager
  shrunk = record s { curr_time = now; capacity = shrink s.capacity }

  shrunk-Valid : Valid shrunk xs
  shrunk-Valid = Valid-counters s.requests_counter s.loads_counter (shrink s.capacity) now v

  timer_cb-Valid :
      (t : StaticFileManager) × (timer_cb now s ≡ some t) × ((ys : List ℕ) × Valid t ys)
  unfolding timer_cb
  timer_cb-Valid =
      elim (Bool-cases (leb (wrap (s.loads_counter * target_cache_hit_ratio)) s.requests_counter)) [
        | inl few ↦
            let (t, e, out) = purge-IsValid max_purge_per_cycle shrunk xs shrunk-Valid in
            let (ys, w) = out in
            rw (few, e, timer_cb) (_, refl, (ys, Valid-counters 0 0 t.capacity t.curr_time w))
        | inr many ↦ rw (many, timer_cb) (_, refl, (xs, Valid-counters 0 0 s.capacity now v))
      ]

  -- `timerCB` on a valid manager with fewer than 2^32 loaded files fails no assertion and leaves a valid manager. If 50 times
  -- the number of loads, as a `uint32_t`, is at most that of the requests, the capacity shrinks by an eighth but not below 32, and
  -- of the files that are more than it, at most 128, those that were loaded first are unloaded; otherwise the capacity and the
  -- loaded files stay. No file with a reference is deleted.
  pub timer_cb_lem :
      length xs < 2 ^ 32
      → (t : StaticFileManager) × (timer_cb now s ≡ some t)
        × Valid t (kept_files s xs)
        × ((x : ℕ) → 1 ≤ (s.files x).ref_count → t.freed x ≡ s.freed x)
        × (t.capacity ≡ (
            if leb (s.loads_counter * 50 % 2 ^ 32) s.requests_counter
            then max 32 (s.capacity - s.capacity / 8)
            else s.capacity))
  unfolding timer_cb
  timer_cb_lem short =
      elim (Bool-cases (leb (wrap (s.loads_counter * target_cache_hit_ratio)) s.requests_counter)) [
        | inl few ↦
            let (t, e, w, k) = purge_lem max_purge_per_cycle shrunk xs shrunk-Valid short in
            rw (few, e, timer_cb, ← shrink_lem s.capacity)
              (_, refl, Valid-counters 0 0 t.capacity t.curr_time w, k.freed_kept, k.capacity_kept)
        | inr many ↦
            rw (many, timer_cb) (_, refl, Valid-counters 0 0 s.capacity now v, λ x h. refl, refl)
      ]

raised : (u : StaticFileManager) (zs : List ℕ) → Valid u zs → Valid (raise_capacity u) zs
unfolding raise_capacity
raised u zs v = elim (Bool-cases (ltb u.capacity (wrap (u.loads_counter * 2)))) [
  | inl t ↦
      let ramped =
        if ltb u.requests_counter (wrap (u.loads_counter * target_cache_hit_ratio))
        then wrap (u.capacity + u.capacity / 8)
        else u.capacity in
      rw t (
        Valid-counters u.requests_counter u.loads_counter
          (if ltb max_capacity ramped then max_capacity else ramped) u.curr_time v)
  | inr t ↦ rw t v
]

load_and_evict-Valid :
    (set : Settings) (os : System) (a : ℕ) (s : StaticFileManager) (xs : List ℕ)
    → Valid s xs
    → Referenced s a
    → loaded (s.files a) ≡ false
    → (t : StaticFileManager) × (load_and_evict set os a s ≡ some t) × ((ys : List ℕ) × Valid t ys)
unfolding load_and_evict
load_and_evict-Valid set os a s xs v r out =
    let (ys, kind, w, k) =
      load_lem set os s xs a v (Idle-Referenced xs a r (sym (loaded-has a v r.lt) ∙ out)) in
    let t = load set os a s in
    elim (Bool-cases (ltb t.capacity t.n_loaded)) [
      | inl full ↦
          let (u, e, last, l) = pop_lem t ys w in
          rw (full, e, load_and_evict)
            (raise_capacity u, refl, (drop 1 ys, raised u (drop 1 ys) last))
      | inr room ↦ rw (room, load_and_evict) (raise_capacity t, refl, (ys, raised t ys w))
    ]

-- What the program does with the manager: a handler is made, copied, destroyed or called, the timer runs, or a file is loaded with `loadAndEvict`.
pub data Step (set : Settings) : StaticFileManager → StaticFileManager → Type 0 where
  create : (s : StaticFileManager) (path : Bytes) → Step set s (create_handler path s).1
  copy : (s : StaticFileManager) (a : ℕ) → Referenced s a → Step set s (ref a s)
  destroy : (s : StaticFileManager) (a : ℕ) → Referenced s a → Step set s (unref a s)
  call :
      {s t : StaticFileManager} {out : Served} (os : System) (a : ℕ)
      → Referenced s a
      → call_handler set os a s ≡ some (out, t)
      → Step set s t
  tick : {s t : StaticFileManager} (now : Timespec) → timer_cb now s ≡ some t → Step set s t
  evict :
      {s t : StaticFileManager} (os : System) (a : ℕ)
      → Referenced s a
      → loaded (s.files a) ≡ false
      → load_and_evict set os a s ≡ some t
      → Step set s t

-- From the constructor, with whatever is in the memory.
pub data Reached (set : Settings) : StaticFileManager → Type 0 where
  new : (files : Files) (now : Timespec) → Reached set (new_manager files now)
  next : {s t : StaticFileManager} → Reached set s → Step set s t → Reached set t

pub new_manager-Valid : (files : Files) (now : Timespec) → Valid (new_manager files now) []
unfolding new_manager
new_manager-Valid files now = record {
  sound = record {
    linked = record { chain = tt; first_eq = refl; last_eq = refl; distinct = tt };
    count = omega arith;
    handles_eq = refl;
    made = λ a h. ground arith;
    alive = λ a h. refl;
    held_eq = λ a lt. absurd (omega arith);
    cached = λ k a e. absurd (cc e);
    in_cache = λ a lt f. absurd (omega arith);
    unused = λ a b. refl;
  };
  used = λ a lt f o. absurd (omega arith);
}

abbrev pub IsValid : StaticFileManager → Type 0
IsValid s = (xs : List ℕ) × Valid s xs

Step-IsValid : {set : Settings} {s t : StaticFileManager} → Step set s t → IsValid s → IsValid t
Step-IsValid (create s path) (xs, v) = (xs, (create_handler_lem path s xs v).valid)
Step-IsValid (copy s a r) (xs, v) = (xs, ref-Valid s xs a v)
Step-IsValid (destroy s a r) (xs, v) = (xs, unref_lem s xs a v r)
Step-IsValid {set} (call {s} os a r e) (xs, v) =
    let (out, t, f, w, o) = call_handler_lem set os s xs a v r in
    subst IsValid (ap (λ (p : Served × StaticFileManager). p.1) (of_some (sym f ∙ e))) w
Step-IsValid (tick {s} now e) (xs, v) =
    let (t, f, w) = timer_cb-Valid now s xs v in subst IsValid (of_some (sym f ∙ e)) w
Step-IsValid {set} (evict {s} os a r out e) (xs, v) =
    let (t, f, w) = load_and_evict-Valid set os a s xs v r out in
    subst IsValid (of_some (sym f ∙ e)) w

-- In every state that the manager reaches, some list of files is the list from `firstToFree` to `lastToFree`, well linked in
-- both directions and counted by `nLoaded`; its files are just the loaded ones, each with one descriptor or
-- mapping, and there are no others open; the map has just the files that are not deleted, under their paths;
-- and a file that is not loaded has a reference.
pub Reached-IsValid : {set : Settings} {s : StaticFileManager} → Reached set s → IsValid s
Reached-IsValid (new files now) = ([], new_manager-Valid files now)
Reached-IsValid (next r s) = Step-IsValid s (Reached-IsValid r)

-- In a state that the manager reaches, a second `createHandler` for a path gives the file that the first one gave.
pub create_handler_again :
    {set : Settings} {s : StaticFileManager} (path : Bytes)
    → Reached set s
    → (create_handler path (create_handler path s).1).0 ≡ (create_handler path s).0
unfolding create_handler
create_handler_again {s} path r =
    let (xs, v) = Reached-IsValid r in
    let h = create_handler_lem path s xs v in
    let a = (create_handler path s).0 in
    let t = (create_handler path s).1 in
    let e = h.valid.sound.in_cache a h.reference.lt h.reference.live in
    ap (λ (p : ℕ × StaticFileManager). p.0) (get_file-at path t (ap t.cache (sym h.path_eq) ∙ e))
