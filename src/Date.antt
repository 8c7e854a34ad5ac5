-- ===== src/Date.antt =====
-- stringutils.C: the two functions that write a date for an HTTP header, `rfctime` and `rfctime2`, with the
-- words of four characters that they are made of (Words), what they write (Print), and where they agree.
pub mod Words
pub mod Defs
pub mod Text
pub mod Print
pub mod Agree
mod Tests
