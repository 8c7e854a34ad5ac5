-- ===== src/Http.antt =====
-- include/cppsp-ng/httpparser.H: the request parser.
pub mod Text
pub mod Defs
pub mod Read
pub mod Valid
pub mod Line
pub mod Preserve
pub mod Extend
pub mod Place
pub mod Resume
pub mod Later
pub mod Room
mod Tests
