-- ===== src/Cache/Defs.antt =====
-- `RouteCache`. A handler is a value of a type `Fn`, with the empty function among them; `sdbm` comes from a
-- library that is not part of the repository. The entries and their slots are functions of the index.
use cppsp_ng.Base.{
  ℕ, zero, suc, ◌+◌, ◌-◌, ◌%◌, Option, none, some, List, [], ◌∷◌, ◌++◌, bit_and, ltb, ◌==◌,
  if◌then◌else◌, length, drop,
}
use cppsp_ng.Base.Bytes.{Bytes}
use cppsp_ng.Base.Equal.{equal}

abbrev pub max_path_length : ℕ
max_path_length = 256

abbrev pub entries_per_hash : ℕ
entries_per_hash = 4

-- The bytes of a key, 256 in the source, and what they are as a string: those before the first 0.
unfoldable pub key_string : Bytes → Bytes
key_string [] = []
key_string (c ∷ s) = let rest = key_string s in if c == 0 then [] else c ∷ rest

unfoldable pub assign {ℓ} : {A : Type ℓ} → ℕ → A → (ℕ → A) → ℕ → A
assign i a f j = if j == i then a else f j

pub record RouteCacheEntry {ℓ} (Fn : Type ℓ) : Type ℓ where
  pub keys : ℕ → Bytes
  pub handlers : ℕ → Fn
  pub next_to_evict : ℕ

pub record RouteCache {ℓ} (Fn : Type ℓ) : Type ℓ where
  pub size : ℕ
  pub table : ℕ → RouteCacheEntry Fn

-- The key that `processRequest` makes of the host and the path.
unfoldable pub make_key : Bytes → Bytes → Bytes
make_key host path = host ++ b'#' ∷ path

module _ {ℓ} {Fn : Type ℓ} where
  -- The constructor: every key is the empty string, with whatever the memory held behind it. The assertion that the size is a power of 2
  -- is left to the caller; no theorem needs it.
  unfoldable pub new_cache : ℕ → (ℕ → ℕ → Bytes) → Fn → RouteCache Fn
  new_cache size junk null = record {
    size = size;
    table = λ h. record { keys = λ i. 0 ∷ junk h i; handlers = λ i. null; next_to_evict = 0 };
  }

  -- The slots from `i` on, of which there are `n`.
  unfoldable pub find_key : ℕ → ℕ → RouteCacheEntry Fn → Bytes → Option Fn
  unfolding key_string equal
  find_key zero i entry path = none
  find_key (suc n) i entry path =
      let rest = find_key n (suc i) entry path in
      if equal (key_string (entry.keys i)) path then some (entry.handlers i) else rest

  unfoldable pub insert_entry : Bytes → Fn → RouteCacheEntry Fn → RouteCacheEntry Fn
  unfolding assign
  insert_entry path handler entry =
      let at = entry.next_to_evict in
      record {
        keys = assign at (path ++ 0 ∷ drop (length path + 1) (entry.keys at)) entry.keys;
        handlers = assign at handler entry.handlers;
        next_to_evict = (at + 1) % entries_per_hash;
      }

  -- `enumerate`: the calls of the callback, in their order, for the slots from `j` on and for the entries from `i` on.
  unfoldable pub enumerate_slots : ℕ → ℕ → RouteCacheEntry Fn → List (Bytes × Fn)
  unfolding key_string
  enumerate_slots zero j entry = []
  enumerate_slots (suc n) j entry =
      let rest = enumerate_slots n (suc j) entry in
      elim (key_string (entry.keys j)) [ [] ↦ rest | b ∷ s ↦ (b ∷ s, entry.handlers j) ∷ rest ]

  unfoldable pub enumerate_entries : ℕ → ℕ → RouteCache Fn → List (Bytes × Fn)
  unfolding enumerate_slots
  enumerate_entries zero i c = []
  enumerate_entries (suc n) i c =
      enumerate_slots entries_per_hash 0 (c.table i) ++ enumerate_entries n (suc i) c

  unfoldable pub enumerate : RouteCache Fn → List (Bytes × Fn)
  unfolding enumerate_entries
  enumerate c = enumerate_entries c.size 0 c

  module _ (sdbm : Bytes → ℕ) where
    unfoldable pub hash : RouteCache Fn → Bytes → ℕ
    hash c path = bit_and (sdbm path) (c.size - 1)

    unfoldable pub find : RouteCache Fn → Bytes → Option Fn
    unfolding hash find_key
    find c path = find_key entries_per_hash 0 (c.table (hash c path)) path

    unfoldable pub insert : RouteCache Fn → Bytes → Fn → RouteCache Fn
    unfolding hash insert_entry assign
    insert c path handler = if ltb max_path_length (length path + 1) then c else record c {
      table = assign (hash c path) (insert_entry path handler (c.table (hash c path))) c.table;
    }

    -- The lookup of a handler in `processRequest`, with a router: the handler that is called, and the cache.
    unfoldable pub serve_found :
        (Bytes → Bytes → Fn) → RouteCache Fn → Bytes → Bytes → Option Fn → Fn × RouteCache Fn
    unfolding insert make_key
    serve_found router c host path (some cached) = (cached, c)
    serve_found router c host path none =
        let handler = router host path in (handler, insert c (make_key host path) handler)

    unfoldable pub serve : (Bytes → Bytes → Fn) → RouteCache Fn → Bytes → Bytes → Fn × RouteCache Fn
    unfolding find serve_found make_key
    serve router c host path = serve_found router c host path (find c (make_key host path))
