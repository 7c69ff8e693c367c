-- ===== src/Storage.antt =====
-- internal/storage: the content-addressed, encrypted object store.
pub mod Crypto
pub mod Disk
pub mod Store
pub mod Integrity
pub mod Opens
pub mod Frame
pub mod Staging
pub mod Paths
pub mod RoundTrip
pub mod Tables
