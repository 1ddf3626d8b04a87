-- ===== src/Coordinator.antt =====
-- extensions/_shared/coordinator-state.ts: what the sessions of one repository share on disk: the
-- ledgers of answered requests and of wake-ups, message statuses, inboxes and receipts.
pub mod Ids
pub mod Ledger
pub mod Wake
pub mod Records
pub mod Outgoing
pub mod Envelopes
pub mod Delivery
pub mod Receipts
pub mod Tests
