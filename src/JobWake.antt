-- ===== src/JobWake.antt =====
-- extensions/_shared/job-wake.ts: waking an idle session when its background jobs finish.
pub mod Hub
mod Counts
mod Turns
mod Fresh
mod Tests
