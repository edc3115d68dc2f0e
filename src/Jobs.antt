-- ===== src/Jobs.antt =====
-- internal/jobs: the queue of background jobs in PostgreSQL, its pools of workers, and what may be
-- cancelled.
pub mod Pools
pub mod Bounds
pub mod Settings
pub mod Rows
pub mod Cancel
pub mod Queue
pub mod Runner
pub mod Trace
pub mod Sound
pub mod Orderly
pub mod Claims
pub mod Drain
pub mod Kept
pub mod Invariant
pub mod Moves
pub mod Steps
pub mod Selected
pub mod Attempts
pub mod Coalesce
pub mod Cancelling
mod Tests
