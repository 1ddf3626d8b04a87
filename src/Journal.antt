-- ===== src/Journal.antt =====
-- extensions/workflow/journal.ts: the journal of a workflow's completed steps.
pub mod Store
mod Replay
mod Tests
