-- ===== src/Tests/Downloads.antt =====
-- A download, run.
use securevault.Files.Shared.{IsShared}
use securevault.Files.Listed.{list_nodes-viewable, viewable}
use securevault.Files.Listing.{insert_by, listed, newer, select_nodes, sort_by, list_nodes}
use securevault.Audit.{record_event}
use securevault.Storage.Crypto.{new_gcm, decrypt, unwrap_dek}
use securevault.Storage.Disk.{read_file}
use securevault.Authz.{can}
use securevault.Storage.Store.{hex_digit, hex, verify, open_object, object_path}
use securevault.Files.Statements.{select_grants, select_node}
use securevault.Tests.{bob, store, empty_db, start, repo, alice}
use securevault.Database.Schema.{NodeRow}
use securevault.Files.Node.{role_of, grant_map, scan_node, node_state, load_node, authorize, Node}
use securevault.Files.Access.{download}
use securevault.Files.Downloaded.{download_ok, Downloaded}
use securevault.Base.{
  nat_eq, string_eq, Bytes, bytes_beq, bytes_eq, replicate, Result, lookup, codes, ok, ◌≡◌, refl,
  inr, List, [], ◌∷◌, ◌++◌, arith,
}
use securevault.Platform.Sample.{sample}
use securevault.Effect.{
  ignore, raise_if, on_error, os_call, or_raise, call, query, raise, pure, rescue, World, ◌>>=◌,
}

abbrev hash : Bytes
hash = sample.sha256 (codes "hello")

abbrev node_row : NodeRow
node_row = record {
  id = "id1";
  owner_id = "u1";
  blob_hash = hash;
  display_name = codes "a";
  mime_type = "text/plain";
  created_at = 5;
  updated_at = 5;
}

abbrev stored : World
stored = record start {
  db = record empty_db {
    blobs =
        record {
          hash = hash;
          size_bytes = 5;
          wrapped_dek = replicate 12 0 ++ (hash ++ replicate 32 5);
          ref_count = 1;
        }
        ∷ [];
    nodes = node_row ∷ [];
  };
  disk = (object_path store hash, codes "SVL1" ++ (replicate 12 0 ++ (hash ++ codes "hello"))) ∷ [];
}

abbrev download_run : Result (Node × Bytes) × World
download_run = download sample repo alice "id1" stored

abbrev node : Node
node = record {
  id = "id1";
  name = codes "a";
  mime_type = "text/plain";
  size = 5;
  owner_name = "alice";
  my_role = "owner";
  created_at = 5;
  updated_at = 5;
}

download_eq : download sample repo alice "id1" stored ≡ (ok (node, codes "hello"), download_run.1)
unfolding download authorize load_node select_node select_grants node_state scan_node grant_map can
    role_of rescue ◌>>=◌ pure raise query call or_raise lookup bytes_beq open_object verify
    read_file unwrap_dek decrypt new_gcm os_call on_error raise_if record_event ignore object_path
    hex hex_digit
download_eq = refl

download_ok_example :
    Downloaded sample alice "id1" stored.db node (codes "hello") × (download_run.1.db ≡ stored.db)
download_ok_example = download_ok sample repo alice "id1" stored download_eq

-- The same with a grant to bob, who lists it.
abbrev granted : World
granted = record stored {
  db = record stored.db {
    grants = record { node_id = "id1"; grantee_id = "u2"; role = "viewer"; granted_by = "u1" } ∷ [];
  };
}

abbrev list_run : Result (List Node) × World
list_run = list_nodes sample bob granted

list_eq : list_nodes sample bob granted ≡ (ok (record node { my_role = "viewer" } ∷ []), list_run.1)
unfolding list_nodes select_nodes listed sort_by insert_by scan_node query call pure ◌>>=◌ lookup
    bytes_beq
list_eq = refl

granted-IsShared : IsShared granted.db
granted-IsShared = record { once = λ node user. ground arith; roles = (inr refl, tt) }

list_nodes-viewable_example :
    (record node { my_role = "viewer" } ∷ [])
    ≡ sort_by newer (viewable granted.db bob granted.db.nodes)
list_nodes-viewable_example =
    list_nodes-viewable sample bob granted (λ e. absurd (cc e)) granted-IsShared list_eq
