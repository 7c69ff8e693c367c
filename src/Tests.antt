-- ===== src/Tests.antt =====
-- Concrete runs of the theorems, on the sample platform.
pub mod Examples
pub mod Sessions
pub mod Startup
pub mod Web
pub mod Accounts
pub mod Downloads
pub mod Stored
pub mod Passwords
pub mod Throttle
use securevault.Audit.{record_event}
use securevault.Files.Validate.Content.{validate_content}
use securevault.Authz.{can}
use securevault.Files.Statements.{
  select_grants, select_node, delete_blob, drop_reference, delete_node, insert_node, insert_blob,
  select_refs,
}
use securevault.Files.Upload.{upload, reference_blob, insert_body, insert_upload}
use securevault.Files.Access.{delete_body}
use securevault.Storage.Disk.{rename, remove_file, write, create_temp}
use securevault.Storage.Crypto.{new_gcm, random_bytes, encrypt, wrap_dek, new_dek}
use securevault.Platform.Sample.{sample}
use securevault.Effect.{
  raise, or_raise, rescue, write_back, query, ignore, run, on_error, call, in_transaction,
  transaction, os_call, pure, ◌>>=◌, World,
}
use securevault.Database.Schema.{UserRow, Db}
use securevault.Files.Counts.{IsCounted}
use securevault.Auth.User.{User}
use securevault.Storage.Store.{
  hex_digit, hex, object_path, commit, write_parts, write_temp, read_limit, read_all, Reader, Store,
  stage, Staged,
}
use securevault.Files.Node.{
  role_of, grant_map, scan_node, node_state, load_node, authorize, NodeState, Node, Repo,
}
use securevault.Base.{
  if◌then◌else◌, nat_eq, string_eq, bytes_beq, bytes_eq, drop, replicate, count, Fault, Result,
  lookup, without, insert, codes, validation, max_bytes, ok, err, ◌-◌, ◌/◌, code, ◌≡◌, refl, ap,
  none, [], ◌∷◌, map, arith,
}
use securevault.Platform.{Platform}

-- A user, a store and an empty database.
abbrev pub alice : User
alice = record { id = "u1"; username = "alice"; role = "user" }

abbrev pub bob : User
bob = record { id = "u2"; username = "bob"; role = "user" }

abbrev pub user_row : User → UserRow
user_row u = record {
  id = u.id;
  username = u.username;
  password_hash = [];
  role = u.role;
  created_at = 0;
  password_changed_at = 0;
}

abbrev pub empty_db : Db
empty_db = record {
  users = user_row alice ∷ user_row bob ∷ [];
  sessions = [];
  login_failures = [];
  blobs = [];
  nodes = [];
  grants = [];
  invites = [];
}

abbrev pub start : World
start = record { db = empty_db; audit_events = []; disk = []; done = []; step = 0 }

abbrev pub store : Store
store = record { root = codes "/d"; kek = replicate 32 7 }

abbrev pub repo : Repo
repo = record { store = store; max_bytes = 100 }

abbrev pub hello : Reader
hello = record { content = codes "hello"; failure = none }

abbrev pub staged_run : Result Staged × World
staged_run = stage sample store hello 100 start

abbrev pub no_staged : Staged
no_staged = record { hash = []; size = 0; wrapped_dek = []; tmp_path = []; handle = 0 }

abbrev pub staged_of : Result Staged → Staged
staged_of (ok s) = s
staged_of (err e) = no_staged

abbrev pub staged : Staged
staged = staged_of staged_run.0

abbrev pub after_stage : World
after_stage = staged_run.1

pub empty-IsCounted : IsCounted empty_db
empty-IsCounted = record { exact = λ h. refl; referenced = λ h. tt; once = λ i. omega arith }

pub staged_eq : stage sample store hello 100 start ≡ (ok staged, after_stage)
unfolding stage ◌>>=◌ pure read_all read_limit new_dek wrap_dek encrypt write_temp write_parts
    random_bytes new_gcm create_temp write remove_file os_call insert without lookup bytes_beq
staged_eq = refl

abbrev pub after_commit : World
after_commit = (commit sample store staged after_stage).1

pub committed_eq : commit sample store staged after_stage ≡ (ok tt, after_commit)
unfolding commit object_path hex hex_digit rename on_error ignore stage ◌>>=◌ pure read_all
    read_limit new_dek wrap_dek encrypt write_temp write_parts random_bytes new_gcm create_temp
    write remove_file os_call insert without lookup bytes_beq
committed_eq = refl

abbrev pub no_node : Node
no_node = record {
  id = "";
  name = [];
  mime_type = "";
  size = 0;
  owner_name = "";
  my_role = "";
  created_at = 0;
  updated_at = 0;
}

abbrev pub node_of_run : Result Node → Node
node_of_run (ok n) = n
node_of_run (err e) = no_node

abbrev pub insert_run : Result Node × World
insert_run = insert_upload sample repo alice (codes "a.txt") "text/plain" staged after_stage

abbrev pub after_insert : World
after_insert = insert_run.1

pub inserted_eq :
    insert_upload sample repo alice (codes "a.txt") "text/plain" staged after_stage
    ≡ (ok (node_of_run insert_run.0), after_insert)
unfolding insert_upload insert_body transaction in_transaction call run query write_back select_refs
    insert_blob insert_node reference_blob commit object_path hex hex_digit rename on_error ignore
    stage ◌>>=◌ pure read_all read_limit new_dek wrap_dek encrypt write_temp write_parts
    random_bytes new_gcm create_temp write remove_file os_call insert without lookup bytes_beq
inserted_eq = refl

abbrev pub after_delete : World
after_delete = (delete_body sample repo "id1" staged.hash after_insert).1

pub deleted_eq : delete_body sample repo "id1" staged.hash after_insert ≡ (ok 0, after_delete)
unfolding delete_body delete_node drop_reference delete_blob insert_upload insert_body transaction
    in_transaction call run query write_back select_refs insert_blob insert_node reference_blob
    commit object_path hex hex_digit rename on_error ignore stage ◌>>=◌ pure read_all read_limit
    new_dek wrap_dek encrypt write_temp write_parts random_bytes new_gcm create_temp write
    remove_file os_call insert without lookup bytes_beq
deleted_eq = refl

abbrev pub no_state : NodeState
no_state = record {
  node = no_node;
  owner_id = "";
  blob_hash = [];
  wrapped_dek = [];
  acl = record { owner_id = ""; grants = [] };
}

abbrev pub state_of : Result NodeState → NodeState
state_of (ok st) = st
state_of (err e) = no_state

-- A database with one file of Alice's.
abbrev pub one_file : World
one_file = record start {
  db = record empty_db {
    blobs = record { hash = 1 ∷ []; size_bytes = 5; wrapped_dek = 2 ∷ []; ref_count = 1 } ∷ [];
    nodes =
        record {
          id = "id1";
          owner_id = "u1";
          blob_hash = 1 ∷ [];
          display_name = codes "a";
          mime_type = "text/plain";
          created_at = 5;
          updated_at = 5;
        }
        ∷ [];
  };
}

abbrev pub view_run : Result NodeState × World
view_run = authorize sample alice "id1" "view" one_file

pub viewed_eq :
    authorize sample alice "id1" "view" one_file ≡ (ok (state_of view_run.0), view_run.1)
unfolding authorize load_node select_node select_grants node_state scan_node grant_map can role_of
    rescue ◌>>=◌ pure query call or_raise lookup bytes_beq
viewed_eq = refl

-- An upload without a content type.
abbrev pub refused_run : Result Node × World
refused_run = upload sample repo alice (codes "a.txt") "" hello start

pub refused_eq :
    upload sample repo alice (codes "a.txt") "" hello start ≡ (err validation, refused_run.1)
unfolding upload ◌>>=◌ read_all validate_content record_event raise ignore rescue
refused_eq = refl
