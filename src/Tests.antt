-- ===== src/Tests.antt =====
-- Runs of the definitions at concrete inputs, and the theorems applied there.
mod World
mod Objects
mod Services
mod Protocol
mod Transfers
mod System
mod Jobs
mod Handlers
mod Startup
