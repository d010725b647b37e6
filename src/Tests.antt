-- ===== src/Tests.antt =====
-- The theorems at concrete inputs, and runs of the definitions.
mod Selection
mod Diff
mod State
mod Sync
mod Conflict
mod SourceTree
mod Scheduler
mod Orphans
mod Changes
