-- ===== src/Objects.antt =====
-- internal/objects/objects.go: versioned objects over the blob ledger.
pub mod Stored
pub mod Steps
pub mod Create
pub mod Update
pub mod Delete
pub mod Outcome
pub mod Pull
pub mod Read
pub mod Sequence
pub mod SequenceKept
mod Rules
