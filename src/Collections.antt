-- ===== src/Collections.antt =====
-- The package internal/collections: the vaults of a user.
pub mod Vault
pub mod Key
