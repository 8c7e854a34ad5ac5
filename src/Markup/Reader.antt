-- ===== src/Markup/Reader.antt =====
-- Readers of the output: one that replaces character entities, as a browser does in text and in
-- attribute values, and one that replaces `\u00XX`, as it does in a string of JavaScript.
use cppsp_ng.Base.{
  ℕ, ◌≡◌, refl, Bool, true, false, ◌&&◌, Option, none, some, [], ◌∷◌, ◌++◌, ◌==◌, if◌then◌else◌,
  length, get_or, take,
}
use cppsp_ng.Base.Bytes.{Bytes, codes}
use cppsp_ng.Url.Hex.{hex_byte}

abbrev same : Bytes → Bytes → Bool
same [] [] = true
same (x ∷ xs) (y ∷ ys) = (x == y) && same xs ys
same _ _ = false

-- The byte that an entity of this name stands for; a name that is not known gives 0.
abbrev entity : Bytes → ℕ
entity name =
    if same name (codes "amp")
    then b'&'
    else if same name (codes "lt")
    then b'<'
    else if same name (codes "gt")
    then b'>'
    else if same name (codes "quot")
    then b'"'
    else if same name (codes "apos")
    then 39
    else 0

-- `some name` is the state behind an `&`, with the name so far.
unfoldable pub entities_from : Option Bytes → Bytes → Bytes
entities_from name [] = []
entities_from none (c ∷ s) = elim (c == b'&') [
  | true ↦ entities_from (some []) s
  | false ↦ c ∷ entities_from none s
]
entities_from (some name) (c ∷ s) = elim (c == b';') [
  | true ↦ entity name ∷ entities_from none s
  | false ↦ entities_from (some (name ++ c ∷ [])) s
]

-- The byte that `\u00XX` stands for, from what follows the backslash; another escape gives 256, which is no byte.
abbrev escape_byte : Bytes → ℕ → ℕ
escape_byte seen c = if same (take 3 seen) (codes "u00") then hex_byte (get_or seen 3 0) c else 256

-- `some seen` is the state behind a backslash, with the bytes of the escape so far.
unfoldable pub escapes_from : Option Bytes → Bytes → Bytes
escapes_from seen [] = []
escapes_from none (c ∷ s) = elim (c == b'\\') [
  | true ↦ escapes_from (some []) s
  | false ↦ c ∷ escapes_from none s
]
escapes_from (some seen) (c ∷ s) = elim (length seen == 4) [
  | true ↦ escape_byte seen c ∷ escapes_from none s
  | false ↦ escapes_from (some (seen ++ c ∷ [])) s
]

read_entities : entities_from none (codes "a&lt;&quot;") ≡ codes "a<\""
unfolding entities_from
read_entities = refl
