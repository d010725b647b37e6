-- ===== src/State.antt =====
-- state/models.py and state/store.py: the engine's tables, and the operations on them.
pub mod Rows
pub mod UnitOfWork
pub mod Queries
pub mod Uniqueness
pub mod Bound
pub mod Envelopes
pub mod Orphans
