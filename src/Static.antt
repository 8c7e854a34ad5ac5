-- ===== src/Static.antt =====
-- `StaticFileManager`, `FileRef` and `StaticFileHandler` of static_handler.C and include/cppsp-ng/static_handler.H: the
-- state (Defs), the operations (Files, Loading, Manager), the list of loaded files (Links, Unlink), the invariant
-- (Valid) and the operations that keep it (Unlist to Steps), the types of files (Mime) and the transfer (Send).
pub mod Defs
pub mod Files
pub mod Loading
pub mod Manager
pub mod Links
pub mod Unlink
pub mod Valid
pub mod Unlist
pub mod Forget
pub mod Unload
pub mod Purge
pub mod Load
pub mod Reload
pub mod Create
pub mod Release
pub mod Steps
pub mod Mime
pub mod Send
mod Tests
