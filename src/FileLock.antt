-- ===== src/FileLock.antt =====
-- extensions/_shared/file-lock.ts: the lock on a path that the processes of a host share.
pub mod State
pub mod Reclaim
pub mod System
mod Names
mod Moves
mod Sweeps
mod Invariant
mod Deaths
mod Reclaims
mod Reachable
mod Exclusion
mod Recovery
mod Waiting
mod Tests
