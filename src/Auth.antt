-- ===== src/Auth.antt =====
-- The package internal/auth: login attempts and sessions.
pub mod RateLimit
pub mod Session
pub mod Password
