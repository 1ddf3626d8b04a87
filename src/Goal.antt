-- ===== src/Goal.antt =====
-- extensions/goal/index.ts: the durable goal of a session and the autopilot that pursues it.
pub mod State
pub mod Ownership
pub mod AgentEnd
pub mod Actions
pub mod Gate
mod Budget
mod Owned
mod Tests
