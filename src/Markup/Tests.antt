-- ===== src/Markup/Tests.antt =====
-- Runs of the escape functions, and the theorems at concrete texts.
use cppsp_ng.Base.{◌≡◌, refl, none, some, [], ◌++◌, length, arith}
use cppsp_ng.Base.Bytes.{Bytes, All, IsByte, codes}
use cppsp_ng.Markup.Defs.{html_escape, html_attribute_escape, js_escape}
use cppsp_ng.Markup.Reader.{entities_from, escapes_from}
use cppsp_ng.Markup.Html.{IsText, html_escape_lem, IsQuotable, html_attribute_escape_lem}
use cppsp_ng.Markup.Js.{IsJsByte, js_escape_lem}

abbrev sample : Bytes
sample = codes "a<'&\""

sample-IsByte : All IsByte sample
sample-IsByte = ground arith

escape_sample : html_escape sample [] ≡ some (12, codes "a&lt;'&amp;\"")
unfolding html_escape
escape_sample = refl

html_escape_lem_example :
    (t : Bytes) × (html_escape sample (codes "x") ≡ some (length t, codes "x" ++ t))
    × All IsText t
    × (entities_from none t ≡ sample)
html_escape_lem_example = html_escape_lem sample (codes "x") (omega arith)

html_attribute_escape_lem_example :
    (t : Bytes) × (html_attribute_escape sample (codes "x") ≡ (length t, codes "x" ++ t))
    × All IsQuotable t
    × (entities_from none t ≡ sample)
html_attribute_escape_lem_example = html_attribute_escape_lem sample (codes "x")

js_escape_lem_example :
    (t : Bytes) × (js_escape sample (codes "x") ≡ some (length t, codes "x" ++ t))
    × All IsJsByte t
    × (escapes_from none t ≡ sample)
js_escape_lem_example = js_escape_lem sample (codes "x") sample-IsByte (omega arith)
