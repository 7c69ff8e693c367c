-- ===== src/Files.antt =====
-- internal/files: uploads, authorized retrieval, sharing, renaming and reference-counted deletion.
pub mod Validate
pub mod Statements
pub mod Node
pub mod Authorized
pub mod Downloaded
pub mod Upload
pub mod Listing
pub mod Granted
pub mod Shared
pub mod Listed
pub mod Access
pub mod Sharing
pub mod Quiet
pub mod Preserved
pub mod Held
pub mod Uploaded
pub mod Stored
pub mod Counts
pub mod Requests
pub mod Rollback
