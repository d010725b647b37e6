-- ===== src/Orphans.antt =====
-- sync/orphans.py: what open orphans are reported as, and the direct check of bindings at the
-- source.
pub mod Digest
pub mod Checks
pub mod Pass
pub mod Writes
pub mod Outcome
pub mod Report
pub mod Listed
pub mod Succeeds
pub mod Recheck
pub mod Confirmed
pub mod Groups
