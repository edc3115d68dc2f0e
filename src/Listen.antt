-- ===== src/Listen.antt =====
-- internal/listen: what counts as listening to a track. An `int` and an `int64` are integers; positions
-- and durations are milliseconds, and an instant is its number of nanoseconds.
pub mod Decide
pub mod Pass
pub mod Credit
pub mod Shadow
pub mod Fair
pub mod Qualify
mod Tests
