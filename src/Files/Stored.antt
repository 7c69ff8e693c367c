-- ===== src/Files/Stored.antt =====
-- The objects of the store, against the blobs of the tables, over the operations on files.
pub mod Finished
pub mod Kept
pub mod Answers
pub mod Interleaved
pub mod Always
pub mod Deletes
pub mod Served
pub mod Blobs
pub mod Uploads
