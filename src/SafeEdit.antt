-- ===== src/SafeEdit.antt =====
-- extensions/safe-edit/state.ts: exact replacements in a file, previewed and then applied.
pub mod Replace
mod Slices
mod Finds
mod Pieces
pub mod Files
pub mod Session
mod Applies
mod Previews
mod Tests
