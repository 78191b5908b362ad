-- ===== src/Wire.antt =====
-- The binary formats of cmd/server/objects.go and cmd/server/blobs.go.
pub mod Numbers
pub mod Batch
pub mod Transfer
