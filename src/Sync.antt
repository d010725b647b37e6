-- ===== src/Sync.antt =====
-- sync/loop.py and sync/policy.py: one cycle of a sync pair.
pub mod Settings
pub mod Cycle
pub mod Calls
pub mod Pending
pub mod Writes
pub mod Records
pub mod Process
pub mod Run
pub mod Keeps
pub mod Effects
pub mod Retry
pub mod Withheld
pub mod Listing
pub mod Advance
pub mod Safety
pub mod Failure
pub mod Resume
pub mod Replay
