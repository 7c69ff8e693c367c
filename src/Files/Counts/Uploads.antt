-- ===== src/Files/Counts/Uploads.antt =====
-- What the transaction of an upload does to the tables when it is committed.
use securevault.Files.Counts.{IsCounted}
use securevault.Effect.Bind.{gets_ok, bind_ok}
use securevault.Files.Counts.Inserted.{inserted-IsCounted, with_node, with_reference}
use securevault.Database.Schema.{AuditRow, NodeRow, Db}
use securevault.Files.Upload.{uploaded, insert_upload, new_node, insert_body, reference_blob}
use securevault.Storage.Store.{Staged}
use securevault.Files.Node.{Node, Repo}
use securevault.Auth.User.{User}
use securevault.Files.Statements.{
  user_of, insert_node, add_reference, node_of, select_refs, insert_blob,
}
use mathlib.Core.Path.{subst}
use securevault.Base.{
  is_some, nat_eq, string_eq, Bytes, bytes_eq, Result, ok, ℕ, String, ◌≡◌, refl, sym, ap, ◌∙◌, true,
  Option, none, some, List, arith,
}
use securevault.Platform.{Platform}
use securevault.Effect.{tick, pure, World, M}
use securevault.Effect.Keeps.{Keeps}
use securevault.Effect.Runs.{run_ok, query_ok, transaction_ok}
use securevault.Storage.Tables.{Tables, Tables-commit, Tables-abort}

-- The tables with one more node, and its blob with one more reference.
pub record Inserted (u : User) (name : Bytes) (mime : String) (staged : Staged) (d : Db)
    (n : NodeRow) (d' : Db) : Type 0 where
  pub new : node_of d n.id ≡ none
  pub owner : n.owner_id ≡ u.id
  pub known : is_some (user_of d u.id) ≡ true
  pub hash : n.blob_hash ≡ staged.hash
  pub shown : (n.display_name ≡ name) × (n.mime_type ≡ mime)
  pub tables : d' ≡ with_node n (with_reference staged.hash staged.size staged.wrapped_dek d)

unchanged_db :
    {A : Type 0} (m : M A) (w : World) {x : Result A} {w' : World}
    → ((d : Db) (es : List AuditRow) → Keeps (Tables d es) m)
    → m w ≡ (x, w')
    → w'.db ≡ w.db
unchanged_db m w k h =
    let t = (k w.db w.audit_events).at w (record { tables = refl; events = refl }) in
    sym (ap (λ (y : _ × World). y.1.db) h) ∙ t.tables

insert_blob_did :
    (hash : Bytes) (size : ℕ) (wrapped : Bytes) (d : Db) {a : Unit {0}} {d' : Db}
    → insert_blob hash size wrapped d ≡ ok (a, d')
    → d' ≡ with_reference hash size wrapped d
unfolding insert_blob
insert_blob_did hash size wrapped d h = ground arith

add_reference_did :
    (hash : Bytes) (size : ℕ) (wrapped : Bytes) (d : Db) {n : ℕ} {a : Unit {0}} {d' : Db}
    → some n ≡ select_refs hash d
    → add_reference hash d ≡ ok (a, d')
    → d' ≡ with_reference hash size wrapped d
unfolding add_reference select_refs
add_reference_did hash size wrapped d e h = ground arith

insert_node_did :
    (n : NodeRow) (d : Db) {a : Unit {0}} {d' : Db}
    → insert_node n d ≡ ok (a, d')
    → (node_of d n.id ≡ none) × (is_some (user_of d n.owner_id) ≡ true) × (d' ≡ with_node n d)
unfolding insert_node
insert_node_did n d h = ground arith

module _ (p : Platform) (r : Repo) where
  reference_blob_ok :
      (staged : Staged) (o : Option ℕ) (w : World) {a : Unit {0}} {w' : World}
      → o ≡ select_refs staged.hash w.db
      → reference_blob p r staged o w ≡ (ok a, w')
      → w'.db ≡ with_reference staged.hash staged.size staged.wrapped_dek w.db
  unfolding reference_blob
  reference_blob_ok staged none w e h = bind_ok _ _ w h λ _ w1 ran h1.
      let s = run_ok p _ w ran in
      unchanged_db _ w1 (λ d es. Tables-commit p d es r.store staged) h1
      ∙ insert_blob_did _ _ _ w.db s.did
  reference_blob_ok staged (some refs) w e h = bind_ok _ _ w h λ _ w1 ran h1.
      let s = run_ok p _ w ran in
      unchanged_db _ w1 (λ d es. Tables-abort p d es staged) h1
      ∙ add_reference_did _ _ _ w.db e s.did

  pub insert_body_ok :
      (u : User) (name : Bytes) (mime : String) (staged : Staged) (now : ℕ) (w : World)
      {n : NodeRow} {w' : World}
      → insert_body p r u name mime staged now w ≡ (ok n, w')
      → Inserted u name mime staged w.db n w'.db
  unfolding insert_body pure
  insert_body_ok u name mime staged now w {n} {w'} h = bind_ok _ _ w h λ refs w1 asked h1.
      bind_ok _ _ w1 h1 λ _ w2 referenced h2. bind_ok _ _ w2 h2 λ id w3 made h3.
        bind_ok _ _ w3 h3 λ _ w4 ran h4.
          let (refs_eq, tick_eq) = query_ok p _ w asked in
          let db1 : w1.db ≡ w.db = ap (λ (w : World). w.db) tick_eq in
          let db2 = reference_blob_ok staged refs w1 (rw (db1) refs_eq) referenced in
          let (id_eq, same) = gets_ok _ w2 made in
          let s = run_ok p _ w3 ran in
          let (new, known, tables) = insert_node_did _ w3.db s.did in
          let row = new_node p r u name mime staged id now in
          let db3 : w3.db ≡ with_reference staged.hash staged.size staged.wrapped_dek w.db =
            ap (λ (w : World). w.db) same
            ∙ (db2 ∙ ap (with_reference staged.hash staged.size staged.wrapped_dek) db1) in
          let row_eq : row ≡ n = cc h4 in
          let end : w4.db ≡ w'.db = cc h4 in
          subst (λ m. Inserted u name mime staged w.db m w'.db) row_eq
            (record {
              new = subst (λ d. node_of d id ≡ none) db3 new;
              owner = refl;
              known = subst (λ d. is_some (user_of d u.id) ≡ true) db3 known;
              hash = refl;
              shown = (refl, refl);
              tables = sym end ∙ (tables ∙ ap (with_node row) db3);
            })

  -- An upload transaction that succeeds has inserted a node with a new id, the owner, the name, the
  -- type and the address of the staged content, and one reference to its blob (a new row, or one
  -- more in the row that there is), and has changed nothing else in the tables; the node that is
  -- returned is that row.
  pub insert_upload_ok :
      (u : User) (name : Bytes) (mime : String) (staged : Staged) (w : World) {node : Node}
      {w' : World}
      → insert_upload p r u name mime staged w ≡ (ok node, w')
      → (n : NodeRow) × (node ≡ uploaded p r u staged n) × Inserted u name mime staged w.db n w'.db
  unfolding insert_upload pure
  insert_upload_ok u name mime staged w {node} {w'} h = bind_ok _ _ w h λ now w1 read h1.
      bind_ok _ _ w1 h1 λ n w2 ran h2. transaction_ok p _ w1 ran λ w3 did same.
        let i = insert_body_ok u name mime staged now (tick w1) did in
        let w1_eq = (gets_ok _ w read).1 in
        let end : w'.db ≡ w3.db = cc (h2, ap (λ (w : World). w.db) same) in
        (
          n,
          cc h2,
          subst (λ d. Inserted u name mime staged d n w'.db) (ap (λ (w : World). w.db) w1_eq)
              (subst (λ d. Inserted u name mime staged w1.db n d) (sym end) i),
        )

  pub Inserted-IsCounted :
      (u : User) (name : Bytes) (mime : String) (staged : Staged) (d : Db) (n : NodeRow) (d' : Db)
      → Inserted u name mime staged d n d'
      → IsCounted d
      → IsCounted d'
  Inserted-IsCounted u name mime staged d n d' i c =
      subst IsCounted
        (ap (λ h. with_node n (with_reference h staged.size staged.wrapped_dek d)) i.hash
          ∙ sym i.tables)
        (inserted-IsCounted staged.size staged.wrapped_dek n d c i.new)
