-- ===== src/Request.antt =====
-- `Request` of include/cppsp-ng/cppsp.H and cppsp.C: what is copied from the parser, the lookup of headers and
-- query strings by name (Defs, Lookup), and comparison of names without regard to case (Case).
pub mod Defs
pub mod Case
pub mod Lookup
mod Tests
