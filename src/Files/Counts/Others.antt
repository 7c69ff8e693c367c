-- ===== src/Files/Counts/Others.antt =====
-- The operations on files that create and delete no node.
use securevault.Files.Counts.Deleted.{deleted-IsCounted}
use securevault.Files.Counts.Uploads.{Inserted-IsCounted}
use securevault.Files.Preserved.{IsPreserved}
use securevault.Files.Node.{Repo}
use securevault.Files.Quiet.{IsQuiet}
use securevault.Effect.Files.{Keeps-run}
use securevault.Files.Counts.Calls.{Keeps-open_object}
use securevault.Database.Table.{find, count_of-update, count_of, update}
use securevault.Files.Counts.{IsReferenced, refs, IsCounted}
use securevault.Files.Statements.{upsert_grant, rename_node, delete_grant}
use securevault.Database.Schema.{GrantRow, Db}
use mathlib.Core.Path.{subst}
use securevault.Base.{
  nat_eq, string_eq, Bytes, bytes_eq, ok, ℕ, ◌≤◌, String, ◌≡◌, refl, sym, ap, ◌∙◌, arith,
}
use securevault.Platform.{Platform}

IsCounted-of :
    (d d' : Db)
    → IsCounted d
    → d'.blobs ≡ d.blobs
    → ((h : Bytes) → count_of (λ n. n.blob_hash) h d'.nodes ≡ count_of (λ n. n.blob_hash) h d.nodes)
    → ((i : String) → count_of (λ n. n.id) i d'.nodes ≡ count_of (λ n. n.id) i d.nodes)
    → IsCounted d'
IsCounted-of d d' c blobs_eq hashes ids = record {
  exact = λ h. ap (λ bs. refs (find (λ b. b.hash) h bs)) blobs_eq ∙ (c.exact h ∙ sym (hashes h));
  referenced =
      λ h. subst (λ bs. IsReferenced (find (λ b. b.hash) h bs)) (sym blobs_eq) (c.referenced h);
  once = λ i. subst (λ n. n ≤ 1) (sym (ids i)) (c.once i);
}

-- The rows of the nodes are renamed, and no row of another table is written.
pub rename_node_did :
    (id : String) (name : Bytes) (now : ℕ) (d : Db) {a : Unit {0}} {d' : Db}
    → rename_node id name now d ≡ ok (a, d')
    → (d'.blobs ≡ d.blobs)
      × (d'.nodes
          ≡ update (λ n. n.id) id (λ n. record n { display_name = name; updated_at = now }) d.nodes)
unfolding rename_node
rename_node_did id name now d h = ground arith

rename_node-IsCounted :
    (id : String) (name : Bytes) (now : ℕ) (d : Db) (a : Unit {0}) (d' : Db)
    → IsCounted d
    → rename_node id name now d ≡ ok (a, d')
    → IsCounted d'
rename_node-IsCounted id name now d a d' c h =
    let (blobs_eq, nodes_eq) = rename_node_did id name now d h in
    IsCounted-of d d' c blobs_eq
      (λ k.
        ap (count_of (λ n. n.blob_hash) k) nodes_eq
        ∙ count_of-update (λ n. n.id) (λ n. n.blob_hash) id k
            (λ n. record n { display_name = name; updated_at = now }) d.nodes (λ n. refl))
      (λ i.
        ap (count_of (λ n. n.id) i) nodes_eq
        ∙ count_of-update (λ n. n.id) (λ n. n.id) id i
            (λ n. record n { display_name = name; updated_at = now }) d.nodes (λ n. refl))

-- A statement that writes no node and no blob.
untouched-IsCounted :
    (d d' : Db) → IsCounted d → (d'.blobs ≡ d.blobs) × (d'.nodes ≡ d.nodes) → IsCounted d'
untouched-IsCounted d d' c (blobs_eq, nodes_eq) =
    IsCounted-of d d' c blobs_eq (λ h. ap (count_of (λ n. n.blob_hash) h) nodes_eq)
      (λ i. ap (count_of (λ n. n.id) i) nodes_eq)

pub upsert_grant_did :
    (g : GrantRow) (d : Db) {a : Unit {0}} {d' : Db}
    → upsert_grant g d ≡ ok (a, d')
    → (d'.blobs ≡ d.blobs) × (d'.nodes ≡ d.nodes)
unfolding upsert_grant
upsert_grant_did g d h = ground arith

pub delete_grant_did :
    (node name : String) (d : Db) {a : ℕ} {d' : Db}
    → delete_grant node name d ≡ ok (a, d')
    → (d'.blobs ≡ d.blobs) × (d'.nodes ≡ d.nodes)
unfolding delete_grant
delete_grant_did node name d h = ground arith

-- Grants and names are written without a change of the counts, and a read writes no table.
IsCounted-IsQuiet : (p : Platform) → IsQuiet p λ d _. IsCounted d
IsCounted-IsQuiet p = record {
  on_open = λ s hash wrapped. Keeps-open_object p IsCounted s hash wrapped;
  on_grant = λ g.
      Keeps-run p (λ d _. IsCounted d) _
        λ d _ a d' c h. untouched-IsCounted d d' c (upsert_grant_did g d h);
  on_revoke = λ node name.
      Keeps-run p (λ d _. IsCounted d) _
        λ d _ a d' c h. untouched-IsCounted d d' c (delete_grant_did node name d h);
  on_rename = λ id name now.
      Keeps-run p (λ d _. IsCounted d) _
        λ d _ a d' c h. rename_node-IsCounted id name now d a d' c h;
}

pub IsCounted-IsPreserved : (p : Platform) (r : Repo) → IsPreserved p IsCounted
IsCounted-IsPreserved p r = record {
  quiet = IsCounted-IsQuiet p;
  grows = λ u name mime staged d n d' i c. Inserted-IsCounted p r u name mime staged d n d' i c;
  shrinks = λ n d c found. deleted-IsCounted n d c found;
}
