-- ===== src/Files/Stored/Answers.antt =====
-- A file that may be downloaded is answered with the bytes that were uploaded.
use securevault.Files.Stored.Always.{perform_all-AllHeld}
use securevault.Files.Requests.{perform_all, Request}
use securevault.Files.Counts.Inserted.{
  with_reference, with_node, blob_of-with_reference, referenced_row,
}
use securevault.Files.Stored.Served.{upload-AllHeld}
use securevault.Files.Uploaded.{upload_ok}
use mathlib.Core.Path.{subst}
use securevault.Files.Upload.{upload}
use securevault.Files.Counts.Uploads.{Inserted}
use securevault.Storage.Store.{max_int64, Staged, Reader}
use securevault.Storage.RoundTrip.{open-eq_of_Opens}
use securevault.Files.Authorized.{select_node_found}
use securevault.Effect.Runs.{query-eq}
use securevault.Effect.Bind.{rescue_returns, bind_returns, bind-eq_of_ok}
use securevault.Files.Held.{AllHeld}
use securevault.Files.Statements.{node_of, blob_of, user_of, select_grants, select_node, NodeJoin}
use securevault.Audit.{Event, record_event}
use securevault.Authz.{action_download, can, Action, NodeAcl}
use securevault.Files.Access.{download}
use securevault.Auth.User.{User}
use securevault.Database.Schema.{UserRow, BlobRow, Db, NodeRow}
use securevault.Platform.Laws.{IsDigestLawful, IsCryptoLawful, NoFault}
use securevault.Files.Node.{
  Node, role_of, scan_node, grant_map, node_state, load_node, authorize, Repo,
}
use securevault.Effect.{handle, tick, rescue, ignore, or_raise, World, pure, ◌>>=◌, ◌>>◌}
use securevault.Base.{
  Option-cases, is_some, eq_iff, eq_refl, nat_eq, string_eq, Bytes, bytes_eq, length, Result,
  not_found, ok, ◌<◌, String, ◌≡◌, refl, sym, ap, ◌∙◌, ◌≢◌, inl, inr, true, some, List, [], arith,
}
use securevault.Platform.{Platform}

-- The access list of a node, as `loadNode` reads it.
abbrev pub acl_of : String → NodeRow → Db → NodeAcl
acl_of id n d = record { owner_id = n.owner_id; grants = grant_map [] (select_grants id d) }

module _ (p : Platform) (up : NoFault p) where
  load_node-eq :
      (id : String) (w : World) (j : NodeJoin)
      → select_node id w.db ≡ some j
      → load_node p id w ≡ (ok (node_state j (select_grants id w.db)), tick (tick w))
  unfolding load_node or_raise pure
  load_node-eq id w j found =
      bind-eq_of_ok _ _ w (query-eq p up _ w)
      ∙ (bind-eq_of_ok _ _ (tick w) (ap (λ o. or_raise o not_found (tick w)) found)
          ∙ bind-eq_of_ok _ _ (tick w) (query-eq p up _ (tick w)))

  -- Where no call fails, a request that the decision function permits is let through.
  authorize-eq :
      (u : User) (id : String) (action : Action) (w : World) (j : NodeJoin)
      → select_node id w.db ≡ some j
      → can (some u) (acl_of id j.node w.db) action ≡ true
      → authorize p u id action w ≡ (
        ok (record (node_state j (select_grants id w.db)) {
          node = scan_node (role_of u (acl_of id j.node w.db)) j;
        }),
        tick (tick w),
      )
  unfolding authorize node_state scan_node rescue pure
  authorize-eq u id action w j found allowed =
      bind-eq_of_ok _ _ w (ap (handle _) (load_node-eq id w j found)) ∙ rw (allowed) refl

-- The bytes that are answered for a node.
pub record Answered (p : Platform) (r : Repo) (u : User) (id : String) (w : World) (j : NodeJoin)
    : Type 0 where
  pub text : Bytes
  pub answer : (download p r u id w).0 ≡ ok (scan_node (role_of u (acl_of id j.node w.db)) j, text)
  pub digest : p.sha256 text ≡ j.node.blob_hash
  pub size_eq : length text ≡ j.blob.size_bytes

module _ (p : Platform) (r : Repo) where
  recorded : (e : Event) (x : Node × Bytes) (w : World) → ((record_event p e >> pure x) w).0 ≡ ok x
  unfolding record_event ignore ◌>>=◌ pure
  recorded e x w = refl

  -- On tables whose blobs are held, a download that is permitted is answered.
  pub download-Answered :
      (u : User) (id : String) (w : World) (j : NodeJoin)
      → NoFault p
      → IsCryptoLawful p
      → AllHeld p r.store w.db w.disk
      → select_node id w.db ≡ some j
      → can (some u) (acl_of id j.node w.db) action_download ≡ true
      → Answered p r u id w j
  unfolding download node_state scan_node
  download-Answered u id w j up law held found allowed =
      let k = held j.node.blob_hash j.blob (select_node_found id w.db j (sym found)).1 in
      record {
        text = k.text;
        answer =
            ap (λ (x : Result (Node × Bytes) × World). x.0)
              (bind-eq_of_ok _ _ w (authorize-eq p up u id action_download w j found allowed))
            ∙ bind_returns _ _ _
                (rescue_returns _ _ _ (
                  open-eq_of_Opens p r.store j.node.blob_hash j.blob.wrapped_dek k.raw k.text
                    (tick (tick w)) (ap length k.digest ∙ law.length-sha256 k.text) (up _) k.file
                    k.opens))
                λ w'. recorded _ _ w';
        digest = sym k.digest;
        size_eq = sym k.size_eq;
      }

select_node_joins :
    (id : String) (d : Db) (n : NodeRow) (b : BlobRow) (owner : UserRow)
    → node_of d id ≡ some n
    → blob_of d n.blob_hash ≡ some b
    → user_of d n.owner_id ≡ some owner
    → select_node id d ≡ some (record { node = n; blob = b; owner = owner })
unfolding select_node
select_node_joins id d n b owner h1 h2 h3 = ground arith

-- The row of an upload, joined with its blob and its owner.
joined :
    (u : User) (name : Bytes) (mime : String) (staged : Staged) (d : Db) (n : NodeRow) (d' : Db)
    → Inserted u name mime staged d n d'
    → (j : NodeJoin) × (j.node ≡ n) × (select_node n.id d' ≡ some j)
joined u name mime staged d n d' i = elim (Option-cases (user_of d u.id)) [
  | inl absent ↦ absurd (cc (i.known, ap is_some absent))
  | inr (owner, there) ↦
      let row = referenced_row staged.hash staged.size staged.wrapped_dek (blob_of d staged.hash) in
      let now = with_node n (with_reference staged.hash staged.size staged.wrapped_dek d) in
      let node_here : node_of now n.id ≡ some n = rw (eq_refl n.id) refl in
      let blob_here : blob_of now n.blob_hash ≡ some row =
        ap (blob_of now) i.hash
        ∙ (blob_of-with_reference staged.hash staged.size staged.wrapped_dek d staged.hash
            ∙ rw (eq_refl staged.hash) refl) in
      let owner_here : user_of now n.owner_id ≡ some owner = ap (user_of d) i.owner ∙ there in
      (
        record { node = n; blob = row; owner = owner },
        refl,
        ap (select_node n.id) i.tables
            ∙ select_node_joins n.id now n row owner node_here blob_here owner_here,
      )
]

owner_may :
    (u : User) (acl : NodeAcl)
    → u.id ≢ ""
    → u.id ≡ acl.owner_id
    → can (some u) acl action_download ≡ true
unfolding can
owner_may u acl known same = ground (arith, eq_iff u.id "", eq_iff u.id acl.owner_id)

module _ (p : Platform) (r : Repo) where
  -- Where no call fails, the cipher and the digest are lawful, the upload limit is below the
  -- largest int64, every blob of the tables is held by the store, the user has an id and no other
  -- text has the digest of the content: after an upload that succeeds, a download of the node that
  -- it returned, by the same user, gives exactly the bytes that were uploaded.
  pub download-upload :
      (u : User) (filename : Bytes) (mime : String) (body : Reader) (w : World) {node : Node}
      {w' : World}
      → NoFault p
      → IsCryptoLawful p
      → IsDigestLawful p
      → r.max_bytes < max_int64
      → u.id ≢ ""
      → ((other : Bytes) → p.sha256 other ≡ p.sha256 body.content → other ≡ body.content)
      → AllHeld p r.store w.db w.disk
      → upload p r u filename mime body w ≡ (ok node, w')
      → (shown : Node) × ((download p r u node.id w').0 ≡ ok (shown, body.content))
  download-upload u filename mime body w {node} {w'} up law bytes small named_user unique held did =
      let up_ok = upload_ok p r u filename mime body w law small did in
      let held' : AllHeld p r.store w'.db w'.disk =
        subst (λ (x : Result Node × World). AllHeld p r.store x.1.db x.1.disk) did
          ((upload-AllHeld p r law bytes u filename mime body small).at w held) in
      let n = up_ok.row in
      let (j, same, found) = joined u _ _ _ w.db n w'.db up_ok.inserted in
      let id_eq : node.id ≡ n.id = ap (λ (m : Node). m.id) up_ok.returned in
      let owner : u.id ≡ j.node.owner_id =
        sym (ap (λ (m : NodeRow). m.owner_id) same ∙ up_ok.inserted.owner) in
      let a =
        download-Answered p r u n.id w' j up law held' found (owner_may u _ named_user owner) in
      let stored : j.node.blob_hash ≡ p.sha256 body.content =
        ap (λ (m : NodeRow). m.blob_hash) same ∙ (up_ok.inserted.hash ∙ up_ok.digest) in
      let text_eq : a.text ≡ body.content = unique a.text (a.digest ∙ stored) in
      let shown = scan_node (role_of u (acl_of n.id j.node w'.db)) j in
      (
        shown,
        subst (λ i. (download p r u i w').0 ≡ ok (shown, body.content)) (sym id_eq)
            (subst (λ t. (download p r u n.id w').0 ≡ ok (shown, t)) text_eq a.answer),
      )

  -- Where no call fails, the cipher and the digest are lawful, the upload limit is below the
  -- largest int64 and every blob of the tables is held at first: after any sequence of requests, a
  -- download of a node of the tables by a user whom the decision function permits it is answered
  -- with the node, and with a text of the recorded size whose digest is the address of its blob.
  pub download-perform_all :
      (qs : List Request) (u : User) (id : String) (w : World) (j : NodeJoin)
      → NoFault p
      → IsCryptoLawful p
      → IsDigestLawful p
      → r.max_bytes < max_int64
      → AllHeld p r.store w.db w.disk
      → select_node id (perform_all p r qs w).db ≡ some j
      → can (some u) (acl_of id j.node (perform_all p r qs w).db) action_download ≡ true
      → Answered p r u id (perform_all p r qs w) j
  download-perform_all qs u id w j up law bytes small held =
      download-Answered p r u id (perform_all p r qs w) j up law
        (perform_all-AllHeld p r law bytes small qs w held)
