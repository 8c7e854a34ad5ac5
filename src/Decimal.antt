-- ===== src/Decimal.antt =====
-- Numbers as decimal text: `itoa64` of cppsp.C, `itoa1` and `itoa2` of stringutils.C (Defs), and what they
-- write (Digits).
pub mod Defs
pub mod Digits
pub mod Tests
