-- ===== src/Static/Reload.antt =====
-- `reloadIfStale` and the call of a handler on a valid manager.
use mathlib.Core.Path.{subst}
use cppsp_ng.Base.{
  ℕ, suc, ◌+◌, ◌≤◌, ◌<◌, ◌≡◌, refl, sym, ap, ◌∙◌, true, false, Bool-cases, inl, inr, Option, none,
  some, List, ◌++◌, arith,
}
use cppsp_ng.Base.Bytes.{Bytes}
use cppsp_ng.Base.Int.{pos, ltb_ℤ}
use cppsp_ng.Static.Defs.{
  LoadedStaticFile, Exception, unix_exception, Timespec, ts_compare, Stat, Answer, failed, answer,
  System, Settings, loaded, wrap, StaticFileManager,
}
use cppsp_ng.Static.Files.{set_file, ref}
use cppsp_ng.Static.Loading.{load}
use cppsp_ng.Static.Manager.{
  unload, minus_two, changed, reload_checked, reload_if_stale, Served, started, aborted, handled,
  serve_failed, serve_file, call_handler,
}
use cppsp_ng.Static.Links.{has, Distinct-remove}
use cppsp_ng.Static.Valid.{Valid, Alike, loaded-held}
use cppsp_ng.Static.Unlist.{Kept, Kept-refl, Kept-trans}
use cppsp_ng.Static.Unload.{unload-has}
use cppsp_ng.Static.Load.{
  SameLinks, at_self, by_place, set_file-Kept, set_file-Valid, set_file-Sound, Idle, load_lem,
}

-- A file that some `FileRef` points to.
pub record Referenced (s : StaticFileManager) (a : ℕ) : Type 0 where
  pub lt : a < s.fresh
  pub live : s.freed a ≡ false
  pub referenced : 1 ≤ (s.files a).ref_count

pub Referenced-Kept : {s t : StaticFileManager} (a : ℕ) → Kept s t → Referenced s a → Referenced t a
Referenced-Kept a k r = record {
  lt = omega (arith, k.fresh_eq, r.lt);
  live = k.freed_kept a r.referenced ∙ r.live;
  referenced = omega (arith, k.refs_kept a, r.referenced);
}

pub Idle-Referenced :
    {s : StaticFileManager} (xs : List ℕ) (a : ℕ) → Referenced s a → has a xs ≡ false → Idle s xs a
Idle-Referenced xs a r out = record {
  lt = r.lt;
  live = r.live;
  out = out;
  referenced = r.referenced;
}

pub loaded-has :
    {s : StaticFileManager} {xs : List ℕ} (a : ℕ)
    → Valid s xs
    → a < s.fresh
    → loaded (s.files a) ≡ has a xs
loaded-has {s} {xs} a v lt = loaded-held (s.files a) (has a xs) (v.sound.held_eq a lt)

-- A valid manager that keeps what is referenced.
abbrev pub Next : StaticFileManager → StaticFileManager → Type 0
Next s t = ((ys : List ℕ) × Valid t ys) × Kept s t

unload-load :
    (set : Settings) (os : System) (s : StaticFileManager) (xs : List ℕ) (a : ℕ)
    → Valid s xs
    → Referenced s a
    → has a xs ≡ true
    → (t : StaticFileManager) × (elim (unload a s) [ none ↦ none | some u ↦ some (load set os a u) ]
        ≡ some t)
      × Next s t
unload-load set os s xs a v r h =
    let (ys, zs, e, out) = unload-has s xs a v h in
    let (u, f, w, k) = out in
    let distinct = subst (λ (q : List ℕ). Valid s q) e v in
    let gone = (Distinct-remove ys a zs distinct.sound.linked.distinct).1 in
    let (qs, kind, last, l) =
      load_lem set os u (ys ++ zs) a w
        (Idle-Referenced (ys ++ zs) a (Referenced-Kept a k r) gone) in
    rw f (load set os a u, refl, ((qs, last), Kept-trans k l))

module _ (set : Settings) (os : System) (s : StaticFileManager) (xs : List ℕ) (a : ℕ)
    (v : Valid s xs) (r : Referenced s a) where
  checked :
      (f : LoadedStaticFile)
      → SameLinks (s.files a) f
      → Alike (s.files a) f
      → (Valid (set_file a f s) xs) × Kept s (set_file a f s)
  checked f links like = (set_file-Valid s a f xs links like v, set_file-Kept s a f like.refs_eq)

  reload_checked_lem :
      (path : Bytes) (f : LoadedStaticFile) (found : Answer Stat)
      → SameLinks (s.files a) f
      → Alike (s.files a) f
      → has a xs ≡ true
      → (t : StaticFileManager) × (reload_checked set os a s path f found ≡ some t) × Next s t
  unfolding reload_checked
  reload_checked_lem path f (failed e) links like h =
      let g = record f { last_exception = some (unix_exception e path) } in
      let (w, k) =
        checked g (record { prev_eq = links.prev_eq; next_eq = links.next_eq })
          (record { path_eq = like.path_eq; held_same = like.held_same; refs_eq = like.refs_eq }) in
      let (ys, zs, e1, out) = unload-has (set_file a g s) xs a w h in
      let (u, e2, last, l) = out in (u, e2, ((ys ++ zs, last), Kept-trans k l))
  reload_checked_lem path f (answer st) links like h =
      let (w, k) = checked f links like in
      elim (Bool-cases (changed f st)) [
        | inl t ↦
            let (u, e, n) = unload-load set os (set_file a f s) xs a w (Referenced-Kept a k r) h in
            rw t (u, e, (n.0, Kept-trans k n.1))
        | inr t ↦ rw t (set_file a f s, refl, ((xs, w), k))
      ]

  -- `reloadIfStale` on a referenced file fails no assertion, whatever the file system answers.
  pub reload_lem : (t : StaticFileManager) × (reload_if_stale set os a s ≡ some t) × Next s t
  unfolding reload_if_stale
  reload_lem =
      let f = s.files a in
      let here = loaded-has a v r.lt in
      elim (Bool-cases (ltb_ℤ (pos 0) (ts_compare f.last_check (minus_two s.curr_time)))) [
        | inl t ↦ rw t (s, refl, ((xs, v), Kept-refl s))
        | inr t ↦ elim (Bool-cases (loaded f)) [
          | inl u ↦
              rw (t, u)
                (reload_checked_lem (set.base_path ++ f.path)
                  (record f { last_check = s.curr_time }) (os.stat (set.base_path ++ f.path))
                  (record { prev_eq = refl; next_eq = refl })
                  (record { path_eq = refl; held_same = refl; refs_eq = refl }) (sym here ∙ u))
          | inr u ↦
              let (ys, kind, w, k) =
                load_lem set os s xs a v (Idle-Referenced xs a r (sym here ∙ u)) in
              rw (t, u) (load set os a s, refl, ((ys, w), k))
        ]
      ]

pub ref-Valid : (s : StaticFileManager) (xs : List ℕ) (a : ℕ) → Valid s xs → Valid (ref a s) xs
unfolding ref set_file
ref-Valid s xs a v =
    let f = record (s.files a) { ref_count = suc (s.files a).ref_count } in
    record {
      sound = set_file-Sound s a f xs (record { prev_eq = refl; next_eq = refl }) refl refl v.sound;
      used =
          by_place s a f
            (λ i h. i < s.fresh → s.freed i ≡ false → has i xs ≡ false → 1 ≤ h.ref_count)
            (λ b g o. omega arith) (λ i t. v.used i);
    }

-- The counters, the capacity and the time are nobody else's.
pub Valid-counters :
    {s : StaticFileManager} {xs : List ℕ} (requests loads capacity : ℕ) (now : Timespec)
    → Valid s xs
    → Valid
        (record s {
          requests_counter = requests;
          loads_counter = loads;
          capacity = capacity;
          curr_time = now;
        })
        xs
Valid-counters requests loads capacity now v =
    let w = v.sound in
    record {
      sound = record {
        linked = w.linked;
        count = w.count;
        handles_eq = w.handles_eq;
        made = w.made;
        alive = w.alive;
        held_eq = w.held_eq;
        cached = w.cached;
        in_cache = w.in_cache;
        unused = w.unused;
      };
      used = v.used;
    }

-- What a call of the handler gives: a transfer starts only of a file that is loaded and now has one reference
-- more, and otherwise the references are as before.
abbrev pub Outcome : ℕ → StaticFileManager → Served → StaticFileManager → Type 0
Outcome a s started t =
    (loaded (t.files a) ≡ true) × ((t.files a).ref_count ≡ suc (s.files a).ref_count)
Outcome a s aborted t =
    (loaded (t.files a) ≡ false)
    × ((t.files a).last_exception ≡ none)
    × ((t.files a).ref_count ≡ (s.files a).ref_count)
Outcome a s (handled e) t =
    (loaded (t.files a) ≡ false)
    × ((t.files a).last_exception ≡ some e)
    × ((t.files a).ref_count ≡ (s.files a).ref_count)

pub ref-at :
    (a : ℕ) (t : StaticFileManager)
    → (loaded ((ref a t).files a) ≡ loaded (t.files a))
      × (((ref a t).files a).ref_count ≡ suc (t.files a).ref_count)
unfolding ref loaded
ref-at a t =
    let e = at_self t a (record (t.files a) { ref_count = suc (t.files a).ref_count }) in
    (ap loaded e, ap (λ (f : LoadedStaticFile). f.ref_count) e)

serve_failed_lem :
    (a : ℕ) (t : StaticFileManager) (xs : List ℕ)
    → Valid t xs
    → loaded (t.files a) ≡ false
    → (o : Option Exception) → (t.files a).last_exception ≡ o
    → Valid (serve_failed t o).1 xs × Outcome a t (serve_failed t o).0 (serve_failed t o).1
unfolding serve_failed
serve_failed_lem a t xs v l none n = (v, (l, n, refl))
serve_failed_lem a t xs v l (some e) n = (v, (l, n, refl))

Outcome-Kept :
    (a : ℕ) {s u : StaticFileManager} (t : StaticFileManager) (out : Served)
    → Kept s u
    → Outcome a u out t
    → Outcome a s out t
Outcome-Kept a t started k (l, n) = (l, n ∙ ap suc (k.refs_kept a))
Outcome-Kept a t aborted k (l, e, n) = (l, e, n ∙ k.refs_kept a)
Outcome-Kept a t (handled x) k (l, e, n) = (l, e, n ∙ k.refs_kept a)

serve_file_lem :
    (a : ℕ) (t : StaticFileManager) (xs : List ℕ)
    → Valid t xs
    → Valid (serve_file a t).1 xs × Outcome a t (serve_file a t).0 (serve_file a t).1
unfolding serve_file
serve_file_lem a t xs v = elim (Bool-cases (loaded (t.files a))) [
  | inl l ↦
      let u = ref a t in
      let (at_loaded, at_refs) = ref-at a t in
      rw l (
        Valid-counters (wrap (u.requests_counter + 1)) u.loads_counter u.capacity u.curr_time
            (ref-Valid t xs a v),
        (at_loaded ∙ l, at_refs),
      )
  | inr l ↦ rw l (serve_failed_lem a t xs v l (t.files a).last_exception refl)
]

-- A call of the handler of a file, on a valid manager and with a reference to the file, fails no assertion whatever
-- the file system answers. The manager it leaves is valid, and a transfer starts just when the file is loaded after the
-- check; otherwise the connection is aborted or gets the exception of the file, and no reference is taken.
pub call_handler_lem :
    (set : Settings) (os : System) (s : StaticFileManager) (xs : List ℕ) (a : ℕ)
    → Valid s xs
    → Referenced s a
    → (out : Served) × (t : StaticFileManager) × (call_handler set os a s ≡ some (out, t))
      × ((ys : List ℕ) × Valid t ys)
      × Outcome a s out t
unfolding call_handler
call_handler_lem set os s xs a v r =
    let (u, e, next) = reload_lem set os s xs a v r in
    let (ys, w) = next.0 in
    let (last, outcome) = serve_file_lem a u ys w in
    rw (e, call_handler)
      (
        (serve_file a u).0,
        (serve_file a u).1,
        refl,
        (ys, last),
        Outcome-Kept a (serve_file a u).1 (serve_file a u).0 next.1 outcome,
      )
