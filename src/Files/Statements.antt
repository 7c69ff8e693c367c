-- ===== src/Files/Statements.antt =====
-- The SQL of internal/files/files.go over the tables, with the constraints of the schema: primary
-- keys, references and their ON DELETE CASCADE, and checks.
use securevault.Base.{
  if◌then◌else◌, is_some, ◌==◌, nat_eq, string_eq, Bytes, bytes_eq, keep, count, any,
  unique_violation, broken, pg, internal, ok, err, ℕ, suc, ◌-◌, String, Bool, not, ◌&&◌, ◌||◌,
  Option, none, some, List, [], ◌∷◌,
}
use securevault.Database.Table.{find, count_of, update, delete}
use securevault.Database.Schema.{Db, UserRow, BlobRow, NodeRow, GrantRow}
use securevault.Effect.{Statement}

abbrev pub blob_of : Db → Bytes → Option BlobRow
blob_of d hash = find (λ b. b.hash) hash d.blobs

abbrev pub node_of : Db → String → Option NodeRow
node_of d id = find (λ n. n.id) id d.nodes

abbrev pub user_of : Db → String → Option UserRow
user_of d id = find (λ u. u.id) id d.users

-- SELECT ref_count FROM blobs WHERE hash = $1 FOR UPDATE
unfoldable pub select_refs : Bytes → Db → Option ℕ
select_refs hash d = elim (blob_of d hash) [ none ↦ none | some b ↦ some b.ref_count ]

-- INSERT INTO blobs … VALUES ($1, $2, $3, 1)
unfoldable pub insert_blob : Bytes → ℕ → Bytes → Statement (Unit {0})
insert_blob hash size wrapped d =
    if is_some (blob_of d hash)
    then err (pg unique_violation)
    else ok (
      tt,
      record d {
        blobs =
            record { hash = hash; size_bytes = size; wrapped_dek = wrapped; ref_count = 1 }
            ∷ d.blobs;
      },
    )

-- UPDATE blobs SET ref_count = ref_count + 1 WHERE hash = $1
unfoldable pub add_reference : Bytes → Statement (Unit {0})
add_reference hash d = ok (
  tt,
  record d {
    blobs = update (λ b. b.hash) hash (λ b. record b { ref_count = suc b.ref_count }) d.blobs;
  },
)

-- INSERT INTO nodes …: the id is new, and the owner and the blob exist.
unfoldable pub insert_node : NodeRow → Statement (Unit {0})
insert_node n d =
    if is_some (node_of d n.id)
    then err (pg unique_violation)
    else if is_some (user_of d n.owner_id) && is_some (blob_of d n.blob_hash)
    then ok (tt, record d { nodes = n ∷ d.nodes })
    else err (pg broken)

-- A node joined with its blob and its owner.
pub record NodeJoin : Type 0 where
  pub node : NodeRow
  pub blob : BlobRow
  pub owner : UserRow

-- The two JOINs: no row where one of them has none.
abbrev pub join : Db → NodeRow → Option NodeJoin
join d n = elim (blob_of d n.blob_hash) [
  | none ↦ none
  | some b ↦ elim (user_of d n.owner_id) [
    | none ↦ none
    | some u ↦ some (record { node = n; blob = b; owner = u })
  ]
]

-- SELECT … FROM nodes n JOIN blobs b … JOIN users ou … WHERE n.id = $1
unfoldable pub select_node : String → Db → Option NodeJoin
select_node id d = elim (node_of d id) [ none ↦ none | some n ↦ join d n ]

-- SELECT grantee_id, role FROM grants WHERE node_id = $1
unfoldable pub select_grants : String → Db → List GrantRow
select_grants id d = keep (λ g. g.node_id == id) d.grants

-- UPDATE nodes SET display_name = $1, updated_at = now() WHERE id = $2 RETURNING updated_at; no row
-- is an error of Scan.
unfoldable pub rename_node : String → Bytes → ℕ → Statement (Unit {0})
rename_node id name now d =
    if is_some (node_of d id)
    then ok (
      tt,
      record d {
        nodes =
            update (λ n. n.id) id (λ n. record n { display_name = name; updated_at = now }) d.nodes;
      },
    )
    else err internal

-- DELETE FROM nodes WHERE id = $1, which deletes the grants of the node too.
unfoldable pub delete_node : String → Statement (Unit {0})
delete_node id d = ok (
  tt,
  record d { nodes = delete (λ n. n.id) id d.nodes; grants = delete (λ g. g.node_id) id d.grants },
)

-- UPDATE blobs SET ref_count = ref_count - 1 WHERE hash = $1 RETURNING ref_count, under the check
-- ref_count >= 0; no row is an error of Scan.
unfoldable pub drop_reference : Bytes → Statement ℕ
drop_reference hash d = elim (blob_of d hash) [
  | none ↦ err internal
  | some b ↦
      if b.ref_count == 0
      then err (pg broken)
      else ok (
        b.ref_count - 1,
        record d {
          blobs = update (λ b. b.hash) hash (λ b. record b { ref_count = b.ref_count - 1 }) d.blobs;
        },
      )
]

-- DELETE FROM blobs WHERE hash = $1, refused where a node refers to the blob.
unfoldable pub delete_blob : Bytes → Statement (Unit {0})
delete_blob hash d =
    if count_of (λ n. n.blob_hash) hash d.nodes == 0
    then ok (tt, record d { blobs = delete (λ b. b.hash) hash d.blobs })
    else err (pg broken)

-- SELECT id FROM users WHERE username = $1
unfoldable pub select_user_id : String → Db → Option String
select_user_id name d = elim (find (λ u. u.username) name d.users) [
  | none ↦ none
  | some u ↦ some u.id
]

abbrev pub is_grant : String → String → GrantRow → Bool
is_grant node grantee g = g.node_id == node && g.grantee_id == grantee

abbrev pub set_role : String → String → String → List GrantRow → List GrantRow
set_role node grantee role [] = []
set_role node grantee role (g ∷ gs) =
    (if is_grant node grantee g then record g { role = role } else g)
    ∷ set_role node grantee role gs

-- INSERT INTO grants … ON CONFLICT (node_id, grantee_id) DO UPDATE SET role = EXCLUDED.role, where the
-- role passes the check, and the node and the users exist.
unfoldable pub upsert_grant : GrantRow → Statement (Unit {0})
upsert_grant g d =
    if (g.role == "editor" || g.role == "viewer")
      && is_some (node_of d g.node_id)
      && is_some (user_of d g.grantee_id)
      && is_some (user_of d g.granted_by)
    then ok (
      tt,
      record d {
        grants =
            if any (is_grant g.node_id g.grantee_id) d.grants
            then set_role g.node_id g.grantee_id g.role d.grants
            else g ∷ d.grants;
      },
    )
    else err (pg broken)

-- DELETE FROM grants g USING users us WHERE …: the number of rows deleted.
unfoldable pub delete_grant : String → String → Statement ℕ
delete_grant node name d = elim (find (λ u. u.username) name d.users) [
  | none ↦ ok (0, d)
  | some u ↦ ok (
    count (is_grant node u.id) d.grants,
    record d { grants = keep (λ g. not (is_grant node u.id g)) d.grants },
  )
]
