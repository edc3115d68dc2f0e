-- ===== src/Retention.antt =====
-- internal/retention: which media files are given up, and how far.
pub mod Policy
pub mod Candidates
pub mod Prune
pub mod Spared
pub mod Preview
pub mod Water
pub mod Busy
pub mod InUse
mod Tests
