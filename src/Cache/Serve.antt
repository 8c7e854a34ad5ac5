-- ===== src/Cache/Serve.antt =====
-- The cache does not change which handler a request gets.
use mathlib.Core.List.{map}
use cppsp_ng.Base.{
  ℕ, zero, suc, ◌+◌, ◌≡◌, refl, sym, ◌∙◌, inl, inr, Bool, true, false, Option, none, some, List, [],
  ◌∷◌, ltb, ◌==◌, if◌then◌else◌, of_some, Bool-cases, length, cons-eq, arith,
}
use cppsp_ng.Base.Bytes.{Bytes, All}
use cppsp_ng.Base.Equal.{equal, equal_sound}
use cppsp_ng.Base.Search.{Lacks}
use cppsp_ng.Cache.Defs.{
  max_path_length, key_string, assign, RouteCacheEntry, RouteCache, make_key, new_cache, find_key,
  insert_entry, hash, find, insert, serve_found, serve,
}
use cppsp_ng.Cache.Keys.{key_string-append, make_key-injective}

-- Every slot whose key is that of a request holds the handler that the router gives for the request.
pub record IsSound {ℓ} {Fn : Type ℓ} (router : Bytes → Bytes → Fn) (c : RouteCache Fn)
    : Type ℓ where
  pub slot :
      (k i : ℕ) (host path : Bytes)
      → Lacks b'#' host
      → key_string ((c.table k).keys i) ≡ make_key host path
      → (c.table k).handlers i ≡ router host path

module _ {ℓ} {Fn : Type ℓ} where
  find_key_at :
      (n i : ℕ) (entry : RouteCacheEntry Fn) (path : Bytes) (h : Fn)
      → find_key n i entry path ≡ some h
      → (j : ℕ) × (key_string (entry.keys j) ≡ path) × (entry.handlers j ≡ h)
  unfolding find_key
  find_key_at zero i entry path h e = ground arith
  find_key_at (suc n) i entry path h e =
      elim (Bool-cases (equal (key_string (entry.keys i)) path)) [
        | inl t ↦ (i, equal_sound _ path t, of_some (rw t at e))
        | inr t ↦ find_key_at n (suc i) entry path h (rw t at e)
      ]

  module _ (router : Bytes → Bytes → Fn) where
    insert_entry-slot :
        (entry : RouteCacheEntry Fn) (h1 p1 : Bytes)
        → ((i : ℕ) (host path : Bytes)
            → Lacks b'#' host
            → key_string (entry.keys i) ≡ make_key host path
            → entry.handlers i ≡ router host path)
        → Lacks b'#' h1
        → Lacks 0 (make_key h1 p1)
        → (i : ℕ) (host path : Bytes) → Lacks b'#' host
        → key_string ((insert_entry (make_key h1 p1) (router h1 p1) entry).keys i)
          ≡ make_key host path
        → (insert_entry (make_key h1 p1) (router h1 p1) entry).handlers i ≡ router host path
    unfolding insert_entry assign
    insert_entry-slot entry h1 p1 sound l1 z1 i host path l e =
        elim (Bool-cases (i == entry.next_to_evict)) [
          | inl t ↦
              let same = sym (key_string-append (make_key h1 p1) _ z1) ∙ (rw t at e) in
              let (a, b) = make_key-injective h1 p1 host path l1 l same in rw (t, a, b) refl
          | inr t ↦ rw t (sound i host path l (rw t at e))
        ]

    module _ (sdbm : Bytes → ℕ) where
      insert-IsSound :
          (c : RouteCache Fn) (host path : Bytes)
          → IsSound router c
          → Lacks b'#' host
          → Lacks 0 (make_key host path)
          → IsSound router (insert sdbm c (make_key host path) (router host path))
      unfolding insert assign
      insert-IsSound c h1 p1 s l1 z1 =
          elim (Bool-cases (ltb max_path_length (length (make_key h1 p1) + 1))) [
            | inl t ↦ rw t s
            | inr t ↦ rw t (record { slot = λ k. at k (k == hash sdbm c (make_key h1 p1)) })
          ]
        where
          at :
              (k : ℕ) (b : Bool) (i : ℕ) (host path : Bytes)
              → Lacks b'#' host
              → key_string (
                  (if b
                      then insert_entry
                          (make_key h1 p1)
                          (router h1 p1)
                          (c.table (hash sdbm c (make_key h1 p1)))
                      else c.table k).keys
                    i)
                ≡ make_key host path
              → (if b
                    then insert_entry
                        (make_key h1 p1)
                        (router h1 p1)
                        (c.table (hash sdbm c (make_key h1 p1)))
                    else c.table k).handlers
                  i
                ≡ router host path
          at k true i host path l e =
              insert_entry-slot (c.table (hash sdbm c (make_key h1 p1))) h1 p1
                (s.slot (hash sdbm c (make_key h1 p1))) l1 z1 i host path l e
          at k false i host path l e = s.slot k i host path l e

      served :
          (c : RouteCache Fn) (host path : Bytes) (o : Option Fn)
          → find sdbm c (make_key host path) ≡ o
          → IsSound router c
          → Lacks b'#' host
          → Lacks 0 (make_key host path)
          → ((serve_found sdbm router c host path o).0 ≡ router host path)
            × IsSound router (serve_found sdbm router c host path o).1
      unfolding serve_found find
      served c host path none e s l z = (refl, insert-IsSound c host path s l z)
      served c host path (some h) e s l z =
          let (j, key, handler) =
            find_key_at 4 0 (c.table (hash sdbm c (make_key host path))) (make_key host path) h e in
          (sym handler ∙ s.slot (hash sdbm c (make_key host path)) j host path l key, s)

      -- On a cache whose slots hold the handlers of the router, a request whose host holds no "#" and whose host and
      -- path hold no 0 byte gets the handler that the router gives for it, whether the cache knows it or
      -- not; and the slots hold the handlers of the router after it.
      pub serve_lem :
          (c : RouteCache Fn) (host path : Bytes)
          → IsSound router c
          → Lacks b'#' host
          → Lacks 0 (make_key host path)
          → ((serve sdbm router c host path).0 ≡ router host path)
            × IsSound router (serve sdbm router c host path).1
      unfolding serve
      serve_lem c host path s l z = served c host path _ refl s l z

-- A new cache holds no handler for a request.
pub new_cache-IsSound {ℓ} :
    {Fn : Type ℓ} (router : Bytes → Bytes → Fn) (size : ℕ) (junk : ℕ → ℕ → Bytes) (null : Fn)
    → IsSound router (new_cache size junk null)
unfolding new_cache key_string make_key
new_cache-IsSound router size junk null = record {
  slot = λ k i host path l e. absurd (no_key host path e);
}
  where
    no_key : (host path : Bytes) → [] ≡ make_key host path → ⊥
    no_key [] path e = cc e
    no_key (c ∷ host) path e = cc e

-- A request whose key stands for it alone.
abbrev pub IsPlain : Bytes × Bytes → Type 0
IsPlain (host, path) = Lacks b'#' host × Lacks 0 (make_key host path)

module _ {ℓ} {Fn : Type ℓ} where
  -- The handlers that requests get one after the other.
  unfoldable pub serve_all :
      (Bytes → ℕ) → (Bytes → Bytes → Fn) → RouteCache Fn → List (Bytes × Bytes) → List Fn
  unfolding serve
  serve_all sdbm router c [] = []
  serve_all sdbm router c ((host, path) ∷ rs) =
      let (h, d) = serve sdbm router c host path in h ∷ serve_all sdbm router d rs

  serve_all-IsSound :
      (sdbm : Bytes → ℕ) (router : Bytes → Bytes → Fn) (c : RouteCache Fn)
      (rs : List (Bytes × Bytes))
      → IsSound router c
      → All IsPlain rs
      → serve_all sdbm router c rs ≡ map (λ (r : Bytes × Bytes). router r.0 r.1) rs
  unfolding serve_all
  serve_all-IsSound sdbm router c [] s h = refl
  serve_all-IsSound sdbm router c ((host, path) ∷ rs) s ((l, z), hs) =
      let (a, b) = serve_lem router sdbm c host path s l z in
      cons-eq a (serve_all-IsSound sdbm router (serve sdbm router c host path).1 rs b hs)

  -- From a new cache of any size on, a sequence of requests, of which no host holds a "#" and no host and path
  -- a 0 byte, gets the handlers that the router gives: caching, and what is evicted, changes none of them.
  pub serve_all_lem :
      (sdbm : Bytes → ℕ) (router : Bytes → Bytes → Fn) (size : ℕ) (junk : ℕ → ℕ → Bytes) (null : Fn)
      (rs : List (Bytes × Bytes))
      → All IsPlain rs
      → serve_all sdbm router (new_cache size junk null) rs
        ≡ map (λ (r : Bytes × Bytes). router r.0 r.1) rs
  serve_all_lem sdbm router size junk null rs h =
      serve_all-IsSound sdbm router _ rs (new_cache-IsSound router size junk null) h
