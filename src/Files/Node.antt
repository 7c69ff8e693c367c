-- ===== src/Files/Node.antt =====
-- internal/files/files.go: the repository, and how it loads and authorizes a node.
use securevault.Effect.{or_raise, pure, raise, rescue, query, ◌>>=◌, ◌>>◌}
use securevault.Audit.{result_denied, Event, record_event}
use securevault.Effect.{M}
use securevault.Platform.{Platform}
use securevault.Auth.User.{User}
use securevault.Storage.Store.{Store}
use securevault.Database.Schema.{named, Target, GrantRow}
use securevault.Files.Statements.{select_grants, select_node, NodeJoin}
use securevault.Authz.{can, Action, NodeAcl}
use securevault.Base.{
  if◌then◌else◌, ◌==◌, nat_eq, string_eq, Bytes, bytes_eq, Error, lookup, insert, not_found, ℕ,
  Bool, true, false, none, some, List, [], ◌∷◌,
}
use Prim.Native.String.{String, ◌++◌ as concat}

-- The pool and the audit logger of the source are calls on the `World`.
pub record Repo : Type 0 where
  pub store : Store
  pub max_bytes : ℕ

abbrev pub new_repo : Store → ℕ → Repo
new_repo store max_bytes = record { store = store; max_bytes = max_bytes }

pub record Node : Type 0 where
  pub id : String
  pub name : Bytes
  pub mime_type : String
  pub size : ℕ
  pub owner_name : String
  pub my_role : String
  pub created_at : ℕ
  pub updated_at : ℕ

pub record Grant : Type 0 where
  pub username : String
  pub role : String

pub record NodeState : Type 0 where
  pub node : Node
  pub owner_id : String
  pub blob_hash : Bytes
  pub wrapped_dek : Bytes
  pub acl : NodeAcl

-- The node that a row of the JOIN scans into.
unfoldable pub scan_node : String → NodeJoin → Node
scan_node role j = record {
  id = j.node.id;
  name = j.node.display_name;
  mime_type = j.node.mime_type;
  size = j.blob.size_bytes;
  owner_name = j.owner.username;
  my_role = role;
  created_at = j.node.created_at;
  updated_at = j.node.updated_at;
}

-- The loop that fills `acl.Grants`.
unfoldable pub grant_map : List (String × String) → List GrantRow → List (String × String)
grant_map acc [] = acc
grant_map acc (g ∷ gs) = grant_map (insert g.grantee_id g.role acc) gs

unfoldable pub node_state : NodeJoin → List GrantRow → NodeState
unfolding scan_node
node_state j gs = record {
  node = scan_node "" j;
  owner_id = j.node.owner_id;
  blob_hash = j.node.blob_hash;
  wrapped_dek = j.blob.wrapped_dek;
  acl = record { owner_id = j.node.owner_id; grants = grant_map [] gs };
}

abbrev pub event : User → String → Target → String → String → Event
event u action target result reason = record {
  actor_id = u.id;
  actor_name = u.username;
  action = action;
  target = target;
  result = result;
  reason = reason;
  request_id = "";
}

-- `MyRole` of an authorized node.
unfoldable pub role_of : User → NodeAcl → String
role_of u acl =
    if u.id == acl.owner_id
    then "owner"
    else elim (lookup u.id acl.grants) [ none ↦ "" | some role ↦ role ]

-- errors.Is(err, ErrNotFound)
abbrev pub is_not_found : Error → Bool
is_not_found not_found = true
is_not_found _ = false

module _ (p : Platform) where
  unfoldable pub load_node : String → M NodeState
  load_node id = do
    found ← query p (select_node id)
    j ← or_raise found not_found
    gs ← query p (select_grants id)
    pure (node_state j gs)

  -- Every denial is audited and returned as `not_found`.
  abbrev pub deny : {A : Type 0} → User → String → Action → String → M A
  deny u id action reason =
      record_event p (event u (concat "file." action) (named id) result_denied reason)
      >> raise not_found

  unfoldable pub authorize : User → String → Action → M NodeState
  unfolding load_node
  authorize u id action = do
    st ←
        rescue (λ e. if is_not_found e then deny u id action "not_found" else raise e)
          (load_node id)
    if can (some u) st.acl action
        then pure (record st { node = record st.node { my_role = role_of u st.acl } })
        else deny u id action "no_grant"
