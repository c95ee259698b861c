-- ===== src/Snapshot.antt =====
-- snapshot.rs: observation roots, bounded snapshots and their comparison.
pub mod Types
pub mod Roots
pub mod Entry
pub mod Capture
pub mod Compare
mod Tests
mod Examples
