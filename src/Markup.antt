-- ===== src/Markup.antt =====
-- stringutils.C: `htmlEscapeImpl`, `htmlAttributeEscapeImpl` and `jsEscapeImpl` (Defs), a reader of the
-- entities and escapes that they write (Reader), and what their output means to it.
pub mod Defs
pub mod Reader
pub mod Html
pub mod Js
mod Tests
