-- ===== src/Query.antt =====
-- Query strings: `parseQueryStringImpl` of stringutils.C (Defs), the names and values that it finds
-- (Pairs), and the method `parseQueryString` of cppsp.C.
pub mod Defs
pub mod Pairs
mod Tests
