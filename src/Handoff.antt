-- ===== src/Handoff.antt =====
-- extensions/_shared/handoff-state.ts: the audit records of a self-handoff in a session's entries.
pub mod Records
pub mod Reduce
pub mod Finality
pub mod Plan
pub mod Tests
