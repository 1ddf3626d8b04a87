-- ===== src/Coordinator/Ledger.antt =====
-- extensions/_shared/coordinator-state.ts: the ledger of one recipient session in which a reply to a
-- request is claimed before it is published. A ledger file is absent, or holds what `JSON.parse`
-- rejects or what has not the ledger's type (`unreadable`), or holds a value of that type.
-- The files are named by a hash of the session id; here they are named by the id itself.
pub mod Claims
pub mod Once
pub mod Attempts
pub mod Soundness
pub mod Lifecycle
pub mod Files
pub mod Answers
