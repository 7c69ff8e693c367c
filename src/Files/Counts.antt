-- ===== src/Files/Counts.antt =====
-- The reference counts of the blobs, against the nodes that refer to them.
pub mod Inserted
pub mod Deleted
pub mod Uploads
pub mod Deletes
pub mod Calls
pub mod Others
use securevault.Files.Statements.{blob_of}
use securevault.Database.Table.{count_of}
use securevault.Base.{
  if◌then◌else◌, nat_eq, string_eq, Bytes, bytes_eq, count, Fault, without, ℕ, ◌-◌, ◌≤◌, String,
  ◌≡◌, Option, none, some,
}
use securevault.Database.Schema.{BlobRow, Db}

abbrev pub refs : Option BlobRow → ℕ
refs none = 0
refs (some b) = b.ref_count

-- The references that the table of blobs records for a hash.
abbrev pub refs_of : Db → Bytes → ℕ
refs_of d h = refs (blob_of d h)

abbrev pub IsReferenced : Option BlobRow → Type 0
IsReferenced none = Unit
IsReferenced (some b) = 1 ≤ b.ref_count

-- Every count is the number of nodes that refer to the blob, no blob is without a reference, and the
-- ids of the nodes are distinct.
pub record IsCounted (d : Db) : Type 0 where
  pub exact : (h : Bytes) → refs_of d h ≡ count_of (λ n. n.blob_hash) h d.nodes
  pub referenced : (h : Bytes) → IsReferenced (blob_of d h)
  pub once : (i : String) → count_of (λ n. n.id) i d.nodes ≤ 1
