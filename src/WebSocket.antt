-- ===== src/WebSocket.antt =====
-- websocket.C and include/cppsp-ng/websocket.H: the frame parser and the frame writer.
pub mod Words
pub mod Parser
pub mod Wire
pub mod Room
pub mod Unmask
pub mod Step
pub mod Laid
pub mod Receive
pub mod Bounds
pub mod Writer
pub mod Append
pub mod Queue
mod Tests
