-- ===== src/Files/Preserved.antt =====
-- What every operation on files keeps of the tables, however it ends, if the writes that they commit
-- keep it.
use securevault.Authz.{action_delete}
use securevault.Files.Counts.Deletes.{delete_body_ok}
use securevault.Effect.Runs.{Keeps-transaction, transaction_at}
use securevault.Database.Table.{column-find}
use securevault.Files.Counts.Deleted.{without_node, without_reference}
use securevault.Files.Counts.Calls.{Keeps-abort, Keeps-stage, Keeps-remove, Keeps-record_event}
use securevault.Files.Statements.{node_of}
use securevault.Files.Counts.Uploads.{insert_body_ok, Inserted}
use securevault.Effect.Bind.{bind_cases}
use securevault.Files.Authorized.{authorize_ok, Loaded}
use securevault.Storage.Store.{Staged, Reader}
use securevault.Effect.Keeps.{Keeps-finally, Keeps-bind, keeps_rules, Keeps}
use securevault.Effect.{tick, transaction, World}
use securevault.Files.Upload.{insert_body, insert_twice, insert_upload}
use securevault.Files.Access.{delete_file, delete_object, delete_rows}
use securevault.Auth.User.{User}
use securevault.Files.Quiet.{authorize-Keeps, IsQuiet}
use securevault.Files.Upload.{upload}
use securevault.Database.Schema.{NodeRow, Db}
use securevault.Files.Node.{NodeState, Repo}
use mathlib.Core.Path.{subst}
use securevault.Base.{nat_eq, string_eq, Bytes, bytes_eq, Result, ℕ, String, ◌≡◌, sym, some}
use securevault.Platform.{Platform}

pub record IsPreserved (p : Platform) (I : Db → Type 0) : Type 0 where
  pub quiet : IsQuiet p λ d _. I d
  pub grows :
      (u : User) (name : Bytes) (mime : String) (staged : Staged) (d : Db) (n : NodeRow) (d' : Db)
      → Inserted u name mime staged d n d'
      → I d
      → I d'
  pub shrinks :
      (n : NodeRow) (d : Db)
      → I d
      → node_of d n.id ≡ some n
      → I (without_reference n.blob_hash (without_node n.id d))

module _ (p : Platform) (r : Repo) (I : Db → Type 0) (kept : IsPreserved p I) where
  insert_body-Keeps :
      (u : User) (name : Bytes) (mime : String) (staged : Staged) (now : ℕ)
      → Keeps (λ w. I w.db) (transaction p (insert_body p r u name mime staged now))
  insert_body-Keeps u name mime staged now = Keeps-transaction p I _ λ w n w' c h.
      kept.grows u name mime staged w.db n w'.db (insert_body_ok p r u name mime staged now w h) c

  insert_upload-Keeps :
      (u : User) (name : Bytes) (mime : String) (staged : Staged)
      → Keeps (λ w. I w.db) (insert_upload p r u name mime staged)
  unfolding insert_upload
  insert_upload-Keeps u name mime staged = search (keeps_rules, insert_body-Keeps) depth 8

  insert_twice-Keeps :
      (u : User) (name : Bytes) (mime : String) (staged : Staged)
      → Keeps (λ w. I w.db) (insert_twice p r u name mime staged)
  unfolding insert_twice
  insert_twice-Keeps u name mime staged = search (keeps_rules, insert_upload-Keeps) depth 8

  -- An upload, whatever calls fail in it and however it ends, keeps it.
  pub upload-Keeps :
      (u : User) (filename : Bytes) (mime : String) (body : Reader)
      → Keeps (λ w. I w.db) (upload p r u filename mime body)
  unfolding upload
  upload-Keeps u filename mime body = Keeps-bind _ _ (search keeps_rules) λ head.
      Keeps-bind _ _ (search (keeps_rules, Keeps-record_event p I) depth 8) λ mime_type.
        Keeps-bind _ _ (search (keeps_rules, Keeps-record_event p I, Keeps-stage p I) depth 8)
          λ staged.
            Keeps-finally _ _ (search (Keeps-abort p I))
              (search (keeps_rules, Keeps-record_event p I, insert_twice-Keeps) depth 8)

module _ (p : Platform) (r : Repo) (I : Db → Type 0)
    (shrinks : (n : NodeRow) (d : Db)
      → I d
      → node_of d n.id ≡ some n
      → I (without_reference n.blob_hash (without_node n.id d))) where
  delete_rows_preserves :
      (n : NodeRow) (w : World)
      → I w.db
      → node_of w.db n.id ≡ some n
      → I (delete_rows p r n.id n.blob_hash w).1.db
  unfolding delete_rows
  delete_rows_preserves n w c found = transaction_at p I _ w c λ left w2 ran.
      subst I (sym (delete_body_ok p r n.id n.blob_hash (tick w) ran).1) (shrinks n w.db c found)

  delete_object-Keeps :
      (u : User) (id : String) (hash : Bytes) (left : ℕ)
      → Keeps (λ w. I w.db) (delete_object p r u id hash left)
  unfolding delete_object
  delete_object-Keeps u id hash left =
      search (keeps_rules, Keeps-record_event p I, Keeps-remove p I) depth 8

  authorized_preserves :
      (id : String) (st : NodeState) (w w1 : World)
      → Loaded id w.db st
      → w1.db ≡ w.db
      → I w.db
      → I (delete_rows p r id st.blob_hash w1).1.db
  authorized_preserves id st w w1 l same c =
      let key = column-find (λ n. n.id) id l.node w.db.nodes l.node_found in
      let here = subst (λ d. node_of d id ≡ some l.node) (sym same) l.node_found in
      subst (λ h. I (delete_rows p r id h w1).1.db) (sym l.hash)
        (subst (λ i. I (delete_rows p r i l.node.blob_hash w1).1.db) key
          (delete_rows_preserves l.node w1 (subst I (sym same) c)
            (subst (λ i. node_of w1.db i ≡ some l.node) (sym key) here)))

  -- A delete, whatever calls fail in it and however it ends, keeps it.
  pub delete_file_preserves :
      (u : User) (id : String) (w : World) → I w.db → I (delete_file p r u id w).1.db
  unfolding delete_file
  delete_file_preserves u id w c =
      bind_cases (λ x. I x.1.db) _ _ w
        (λ st w1 let_in.
          let (l, _, same) = authorize_ok p u id action_delete w let_in in
          bind_cases (λ x. I x.1.db) _ _ w1
            (λ left w2 did. (delete_object-Keeps u id st.blob_hash left).at w2 (
              subst (λ (y : Result ℕ × World). I y.1.db) did
                (authorized_preserves id st w w1 l same c)))
            (λ e w2 failed.
              subst (λ (y : Result ℕ × World). I y.1.db) failed
                (authorized_preserves id st w w1 l same c)))
        (λ e w1 failed.
          subst (λ (y : Result NodeState × World). I y.1.db) failed
            ((authorize-Keeps p (λ d _. I d) u id action_delete).at w c))
