-- ===== src/Server.antt =====
-- The HTTP handlers of cmd/server/objects.go.
pub mod Reply
pub mod Uploads
pub mod Reads
pub mod Login
pub mod BlobRoutes
pub mod Vaults
pub mod Staged
pub mod Stream
