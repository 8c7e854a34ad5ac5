-- ===== src/Cache/Enumerate.antt =====
-- `enumerate`.
use cppsp_ng.Base.{ℕ, zero, suc, ◌≡◌, refl, []}
use cppsp_ng.Base.Bytes.{Bytes}
use cppsp_ng.Cache.Defs.{key_string, new_cache, enumerate_slots, enumerate_entries, enumerate}

-- A new cache has nothing to enumerate.
new_entries {ℓ} :
    {Fn : Type ℓ} (n i size : ℕ) (junk : ℕ → ℕ → Bytes) (null : Fn)
    → enumerate_entries n i (new_cache size junk null) ≡ []
unfolding enumerate_entries enumerate_slots new_cache key_string
new_entries zero i size junk null = refl
new_entries (suc n) i size junk null = new_entries n (suc i) size junk null

pub enumerate-new_cache {ℓ} :
    {Fn : Type ℓ} (size : ℕ) (junk : ℕ → ℕ → Bytes) (null : Fn)
    → enumerate (new_cache size junk null) ≡ []
unfolding enumerate new_cache
enumerate-new_cache size junk null = new_entries size 0 size junk null
