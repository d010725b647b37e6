-- ===== src/Scheduler.antt =====
-- scheduler.py
pub mod Types
pub mod Fires
pub mod Jobs
pub mod Reconcile
pub mod Frame
pub mod Passes
pub mod Builds
pub mod Stages
pub mod Convergence
pub mod Settles
pub mod Serves
pub mod Keeps
pub mod JobSet
pub mod Accounts
pub mod Reachable
pub mod Isolation
pub mod Degraded
pub mod Body
pub mod Runs
pub mod Retries
