-- ===== src/Mvcc.antt =====
-- Multi-version concurrency control (src/mvcc.c, include/mvcc.h).
pub mod State
pub mod Locks
pub mod Calls
pub mod Visible
pub mod Snapshot
pub mod Slots
mod Tests
