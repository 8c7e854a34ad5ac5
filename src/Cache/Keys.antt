-- ===== src/Cache/Keys.antt =====
-- Strings as keys of the cache.
use cppsp_ng.Base.{◌≡◌, refl, sym, [], ◌∷◌, ◌++◌, cons-eq, head_eq, tail_eq, arith}
use cppsp_ng.Base.Bytes.{Bytes}
use cppsp_ng.Base.Search.{Lacks}
use cppsp_ng.Cache.Defs.{key_string, make_key}

pub key_string-append : (s rest : Bytes) → Lacks 0 s → key_string (s ++ 0 ∷ rest) ≡ s
unfolding key_string
key_string-append [] rest h = refl
key_string-append (c ∷ s) rest (h, hs) = ground (arith, key_string-append s rest hs)

-- A key names one host and one path, if the host holds no "#".
pub make_key-injective :
    (h1 p1 h2 p2 : Bytes)
    → Lacks b'#' h1
    → Lacks b'#' h2
    → make_key h1 p1 ≡ make_key h2 p2
    → (h1 ≡ h2) × (p1 ≡ p2)
unfolding make_key
make_key-injective [] p1 [] p2 l1 l2 e = (refl, tail_eq e)
make_key-injective [] p1 (c ∷ h2) p2 l1 (l2, _) e = absurd (l2 (sym (head_eq e)))
make_key-injective (c ∷ h1) p1 [] p2 (l1, _) l2 e = absurd (l1 (head_eq e))
make_key-injective (c ∷ h1) p1 (d ∷ h2) p2 (_, l1) (_, l2) e =
    let (a, b) = make_key-injective h1 p1 h2 p2 l1 l2 (tail_eq e) in (cons-eq (head_eq e) a, b)
