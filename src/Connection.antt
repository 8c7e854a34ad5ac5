-- ===== src/Connection.antt =====
-- `ConnectionHandlerInternal` of cppsp.C: its operations (Defs), the reply that `finish` writes (Reply), the steps
-- of a connection and what holds in all of them (Steps, Safe), that they always lead on (Answer), and the area
-- for the state of a handler with the pool of connections (Scratch).
pub mod Defs
pub mod Reply
pub mod Scratch
pub mod Safe
pub mod Answer
pub mod Steps
mod Tests
