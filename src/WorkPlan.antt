-- ===== src/WorkPlan.antt =====
-- extensions/work-plan/index.ts: the checklist of a session and the actions of its tool.
pub mod State
pub mod Actions
pub mod Invariant
pub mod Steps
pub mod Finish
pub mod Runs
pub mod Events
pub mod Completion
pub mod Unblock
pub mod Tests
