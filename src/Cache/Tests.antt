-- ===== src/Cache/Tests.antt =====
-- The theorems on the cache at a concrete cache.
use mathlib.Core.List.{map}
use cppsp_ng.Base.{ℕ, ◌+◌, ◌<◌, ◌≡◌, refl, none, List, [], ◌∷◌, length, arith}
use cppsp_ng.Base.Bytes.{Bytes, All, codes}
use cppsp_ng.Base.Equal.{equal}
use cppsp_ng.Base.Search.{Lacks}
use cppsp_ng.Cache.Defs.{key_string, RouteCache, make_key, new_cache, find_key, hash, find}
use cppsp_ng.Cache.Serve.{serve_all, IsPlain, serve_all_lem}

-- A hash, and a router whose handlers are numbers; 0 is the empty function.
abbrev sum : Bytes → ℕ
sum [] = 0
sum (c ∷ s) = c + sum s

abbrev router : Bytes → Bytes → ℕ
router host path = 1 + length path

abbrev cache : RouteCache ℕ
cache = new_cache 2 (λ h i. []) 0

abbrev requests : List (Bytes × Bytes)
requests = (codes "a", codes "/b") ∷ (codes "b", codes "/") ∷ (codes "a", codes "/b") ∷ []

requests-IsPlain : All IsPlain requests
unfolding make_key
requests-IsPlain = ground arith

host-Lacks : Lacks b'#' (codes "a")
host-Lacks = ground arith

key-Lacks : Lacks 0 (codes "a#/b")
key-Lacks = ground arith

request-Lacks : Lacks 0 (make_key (codes "a") (codes "/b"))
unfolding make_key
request-Lacks = ground arith

small : (cache.table (hash sum cache (codes "a#/b"))).next_to_evict < 4
unfolding new_cache
small = omega arith

missing : find sum cache (codes "a#/b") ≡ none
unfolding find new_cache find_key key_string equal
missing = refl

serve_all_example :
    serve_all sum router (new_cache 2 (λ h i. []) 0) requests
    ≡ map (λ (r : Bytes × Bytes). router r.0 r.1) requests
serve_all_example = serve_all_lem sum router 2 (λ h i. []) 0 requests requests-IsPlain
