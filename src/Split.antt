-- ===== src/Split.antt =====
-- include/cppsp-ng/split.H: the cursors `split` and `optionParser` (Defs), what the values of a
-- `split` are (Fields), and the options of an `optionParser` (Options).
pub mod Defs
pub mod Fields
pub mod Options
mod Tests
