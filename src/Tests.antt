-- ===== src/Tests.antt =====
-- Runs at concrete inputs.
mod Cycle
mod Rules
mod Hub
mod Accounts
mod Releases
mod Search
mod Windows
mod Tables
