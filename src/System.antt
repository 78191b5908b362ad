-- ===== src/System.antt =====
-- The transactions of the server together: which blobs the ledger keeps for the objects.
pub mod Held
pub mod Claimed
pub mod Shelved
pub mod Emptied
pub mod Swept
pub mod Reach
pub mod Versions
pub mod Converted
