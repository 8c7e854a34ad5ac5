-- ===== src/Cache.antt =====
-- route_cache.C and include/cppsp-ng/route_cache.H, and the part of `processRequest` of cppsp.C that asks
-- the cache for a handler: the model (Defs), keys as strings (Keys), a handler put in and found (Find), the
-- cache in front of a router (Serve), and the list of its handlers (Enumerate).
pub mod Defs
pub mod Keys
pub mod Find
pub mod Serve
pub mod Enumerate
mod Tests
