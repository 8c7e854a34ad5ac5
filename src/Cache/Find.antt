-- ===== src/Cache/Find.antt =====
-- A handler that is put into the cache is found again.
use cppsp_ng.Base.{
  bit_and, ℕ, zero, suc, ◌+◌, ◌-◌, ◌≤◌, ◌<◌, ◌≡◌, refl, inl, inr, true, false, none, some, ltb,
  ◌==◌, Bool-cases, length, drop, arith,
}
use cppsp_ng.Base.Bytes.{Bytes}
use cppsp_ng.Base.Equal.{equal, equal_refl}
use cppsp_ng.Base.Search.{Lacks}
use cppsp_ng.Cache.Defs.{
  max_path_length, entries_per_hash, key_string, assign, RouteCacheEntry, RouteCache, find_key,
  insert_entry, hash, find, insert,
}
use cppsp_ng.Cache.Keys.{key_string-append}

-- A handler is found again.
module _ {ℓ} {Fn : Type ℓ} where
  find_key-insert_entry :
      (n i : ℕ) (entry : RouteCacheEntry Fn) (key : Bytes) (h : Fn)
      → Lacks 0 key
      → i ≤ entry.next_to_evict
      → entry.next_to_evict < i + n
      → find_key n i entry key ≡ none
      → find_key n i (insert_entry key h entry) key ≡ some h
  unfolding find_key insert_entry assign
  find_key-insert_entry zero i entry key h z lo hi e = absurd (omega arith)
  find_key-insert_entry (suc n) i entry key h z lo hi e =
      elim (Bool-cases (i == entry.next_to_evict)) [
        | inl t ↦
            let new =
              key_string-append key (drop (length key + 1) (entry.keys entry.next_to_evict)) z in
            rw (t, new, equal_refl key) refl
        | inr t ↦ elim (Bool-cases (equal (key_string (entry.keys i)) key)) [
          | inl hit ↦ absurd (cc (rw hit at e))
          | inr miss ↦
              rw (t, miss)
                (find_key-insert_entry n (suc i) entry key h z (ground arith) (omega arith)
                  (rw miss at e))
        ]
      ]

  -- A handler that is put into the cache under a key that was not found, holds no 0 byte and is shorter than
  -- 256 bytes is found under this key next.
  pub find-insert :
      (sdbm : Bytes → ℕ) (c : RouteCache Fn) (key : Bytes) (h : Fn)
      → Lacks 0 key
      → length key < max_path_length
      → (c.table (hash sdbm c key)).next_to_evict < entries_per_hash
      → find sdbm c key ≡ none
      → find sdbm (insert sdbm c key h) key ≡ some h
  unfolding find insert assign hash
  find-insert sdbm c key h z short small e =
      let fits : ltb max_path_length (length key + 1) ≡ false = ground arith in
      let same : (bit_and (sdbm key) (c.size - 1) == bit_and (sdbm key) (c.size - 1)) ≡ true =
        ground arith in
      rw (fits, same)
        (find_key-insert_entry 4 0 (c.table (hash sdbm c key)) key h z (omega arith) (omega arith)
          e)
