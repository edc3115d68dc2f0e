-- ===== src/Playback.antt =====
-- internal/playback: sessions, their queues and the operations on them.
pub mod Session
pub mod Queue
pub mod Next
pub mod Extra
pub mod Lease
pub mod Env
pub mod Binding
pub mod Cursor
pub mod Undo
pub mod Control
pub mod Command
pub mod Party
pub mod Position
pub mod Engine
mod Tests
