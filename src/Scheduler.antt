-- ===== src/Scheduler.antt =====
-- extensions/_shared/subagent-scheduler.ts: the host-wide scheduler that hands out execution slots
-- to subagents, and the execution group of one request.
pub mod State
pub mod Select
pub mod Acquire
pub mod Reconcile
pub mod Loop
pub mod Group
mod Tests
