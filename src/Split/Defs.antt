-- ===== src/Split/Defs.antt =====
-- The two cursors of include/cppsp-ng/split.H and their loops of `read` calls. The pointers `s` and
-- `end` of a cursor are the bytes between them; `none` is the null pointer left behind the last value.
use cppsp_ng.Base.{
  ℕ, zero, suc, ◌≡◌, refl, Bool, true, false, Option, none, some, List, [], ◌∷◌, ◌==◌,
  if◌then◌else◌, take, drop,
}
use cppsp_ng.Base.Bytes.{Bytes, codes}
use cppsp_ng.Base.Search.{memchr}

pub record Split : Type 0 where
  pub rest : Option Bytes
  pub value : Bytes
  pub delim : ℕ

-- The constructor; `value` begins as an empty view.
abbrev pub split : Bytes → ℕ → Split
split s delim = record { rest = some s; value = []; delim = delim }

-- What `read` does with the answer of `memchr`.
unfoldable pub advance : Split → Bytes → Option ℕ → Split
advance sp s none = record sp { rest = none; value = s }
advance sp s (some i) = record sp { rest = some (drop (suc i) s); value = take i s }

unfoldable pub read_rest : Split → Option Bytes → Bool × Split
unfolding advance
read_rest sp none = (false, sp)
read_rest sp (some []) = (false, sp)
read_rest sp (some (c ∷ s)) = (true, advance sp (c ∷ s) (memchr sp.delim (c ∷ s)))

unfoldable pub read : Split → Bool × Split
unfolding read_rest
read sp = read_rest sp sp.rest

-- `while (spl.read())`, with the values that it sees; `none` means that the fuel ran out.
abbrev pub push : Bytes → Option (List Bytes) → Option (List Bytes)
push v none = none
push v (some vs) = some (v ∷ vs)

unfoldable pub read_all : ℕ → Split → Option (List Bytes)
unfolding read
read_all zero sp = none
read_all (suc fuel) sp =
    let (more, sp') = read sp in
    let later = push sp'.value (read_all fuel sp') in if more then later else some []

pub record OptionParser : Type 0 where
  pub rest : Option Bytes
  pub value : Bytes
  pub delim : ℕ

abbrev pub option_parser : Bytes → ℕ → OptionParser
option_parser s delim = record { rest = some s; value = []; delim = delim }

-- A call of `optionParser::read` returns, or throws `invalid_argument("unterminated quote")`.
pub data ReadResult : Type 0 where
  returned : Bool → OptionParser → ReadResult
  unterminated_quote : OptionParser → ReadResult

-- "skip delimiter if present"
unfoldable pub skip_delim : ℕ → Bytes → Bytes
skip_delim delim [] = []
skip_delim delim (c ∷ s) = if c == delim then s else c ∷ s

-- `s` holds what stands behind the opening quote.
unfoldable pub read_quoted : OptionParser → Bytes → Option ℕ → ReadResult
unfolding skip_delim
read_quoted p s none = unterminated_quote (record p { rest = none })
read_quoted p s (some i) =
    returned true (record p { rest = some (skip_delim p.delim (drop (suc i) s)); value = take i s })

unfoldable pub read_plain : OptionParser → Bytes → Option ℕ → ReadResult
read_plain p s none = returned true (record p { rest = none; value = s })
read_plain p s (some i) =
    returned true (record p { rest = some (drop (suc i) s); value = take i s })

unfoldable pub read_option_rest : OptionParser → Option Bytes → ReadResult
unfolding read_quoted read_plain
read_option_rest p none = returned false p
read_option_rest p (some []) = returned false p
read_option_rest p (some (c ∷ s)) =
    if c == b'"'
    then read_quoted p s (memchr b'"' s)
    else read_plain p (c ∷ s) (memchr p.delim (c ∷ s))

unfoldable pub read_option : OptionParser → ReadResult
unfolding read_option_rest
read_option p = read_option_rest p p.rest

four_values : read_all 5 (split (codes "a=1&&b&") b'&') ≡ some (codes "a=1" ∷ [] ∷ codes "b" ∷ [])
unfolding read_all memchr
four_values = refl

quoted_value :
    read_option (option_parser (codes "\"a b\" c") 32)
    ≡ returned true (record { rest = some (codes "c"); value = codes "a b"; delim = 32 })
unfolding read_option memchr
quoted_value = refl
