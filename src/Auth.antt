-- ===== src/Auth.antt =====
-- internal/auth: principals, accounts, invites, passwords, sessions and throttling.
pub mod User
pub mod Base64
pub mod Policy
pub mod Codes
pub mod Invites
pub mod Issued
pub mod Registration
pub mod Login
pub mod Scan
pub mod Password
pub mod Sessions
pub mod Validity
pub mod Accepted
