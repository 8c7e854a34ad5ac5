-- ===== src/Response.antt =====
-- `Response` of include/cppsp-ng/cppsp.H and cppsp.C: its operations (Defs), the head of a reply as HTTP
-- writes it (Head), and what `composeHeaders` makes (Added, Branches, Compose).
pub mod Defs
pub mod Head
pub mod Added
pub mod Branches
pub mod Compose
mod Tests
