-- ===== src/Database/Schema.antt =====
-- internal/database/migrations: the rows of the tables, with the columns that the program reads or
-- writes. Times are in nanoseconds. A column that may be NULL is an option.
use securevault.Base.{ℕ, String, Option, List, Bytes}

pub record UserRow : Type 0 where
  pub id : String
  pub username : String
  pub password_hash : Bytes
  pub role : String
  pub created_at : ℕ
  pub password_changed_at : ℕ

pub record SessionRow : Type 0 where
  pub user_id : String
  pub token_hash : Bytes
  pub expires_at : ℕ
  pub last_seen_at : ℕ

pub record FailureRow : Type 0 where
  pub key : String
  pub attempted_at : ℕ

pub record BlobRow : Type 0 where
  pub hash : Bytes
  pub size_bytes : ℕ
  pub wrapped_dek : Bytes
  pub ref_count : ℕ

pub record NodeRow : Type 0 where
  pub id : String
  pub owner_id : String
  pub blob_hash : Bytes
  pub display_name : Bytes
  pub mime_type : String
  pub created_at : ℕ
  pub updated_at : ℕ

pub record GrantRow : Type 0 where
  pub node_id : String
  pub grantee_id : String
  pub role : String
  pub granted_by : String

pub record InviteRow : Type 0 where
  pub id : String
  pub code_hash : Bytes
  pub note : Bytes
  pub created_by : String
  pub created_at : ℕ
  pub expires_at : ℕ
  pub used_by : Option String
  pub used_at : Option ℕ
  pub revoked_at : Option ℕ

-- The target of an audit event: an id or a user name, or a file name, of which the bytes count.
pub data Target : Type 0 where
  named : String → Target
  file_name : Bytes → Target

pub record AuditRow : Type 0 where
  pub id : ℕ
  pub at : ℕ
  pub actor_id : Option String
  pub actor_name : String
  pub action : String
  pub target : Target
  pub result : String
  pub reason : String
  pub request_id : String

pub record Db : Type 0 where
  pub users : List UserRow
  pub sessions : List SessionRow
  pub login_failures : List FailureRow
  pub blobs : List BlobRow
  pub nodes : List NodeRow
  pub grants : List GrantRow
  pub invites : List InviteRow
