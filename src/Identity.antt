-- ===== src/Identity.antt =====
-- internal/identity: the accounts of an instance, their passwords and their sessions.
pub mod Schema
pub mod Input
pub mod Accounts
pub mod Sessions
pub mod Passwords
pub mod Administrators
pub mod Revocation
