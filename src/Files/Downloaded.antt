-- ===== src/Files/Downloaded.antt =====
-- What a download returns.
use securevault.Files.Rollback.{refuses}
use securevault.Audit.Laws.{record_event_db}
use securevault.Files.Counts.Calls.{Keeps-open_object}
use securevault.Effect.RollsBack.{Steady, Steady-of_Keeps, Steady-eq}
use securevault.Authz.{can, action_download}
use securevault.Effect.Bind.{rescue_ok, pass_ok, bind_ok}
use securevault.Files.Node.{NodeState, Repo, Node}
use securevault.Database.Schema.{Db}
use securevault.Storage.Store.{Store, open_object}
use securevault.Files.Access.{download}
use securevault.Auth.User.{User}
use securevault.Effect.{World, pure}
use securevault.Files.Authorized.{authorize_ok, Loaded}
use securevault.Storage.Integrity.{verify_sound}
use securevault.Base.{nat_eq, string_eq, Bytes, bytes_eq, ok, String, ◌≡◌, ap, ◌∙◌, true, some}
use securevault.Platform.{Platform}

-- A file as it is downloaded: a node of the tables that the user may download, and a text whose
-- digest is the address of its blob.
pub record Downloaded (p : Platform) (u : User) (id : String) (d : Db) (node : Node) (plain : Bytes)
    : Type 0 where
  pub state : NodeState
  pub loaded : Loaded id d state
  pub allowed : can (some u) state.acl action_download ≡ true
  pub shown : node ≡ state.node
  pub digest : p.sha256 plain ≡ state.blob_hash

module _ (p : Platform) where
  open_object_sound :
      (s : Store) (hash dek : Bytes) (w : World) {plain : Bytes} {w' : World}
      → open_object p s hash dek w ≡ (ok plain, w')
      → p.sha256 plain ≡ hash
  unfolding open_object
  open_object_sound s hash dek w h =
      pass_ok _ _ _ w h
        λ _ h1. bind_ok _ _ w h1 λ raw w1 read h2. verify_sound p s hash dek raw _ w1 _ h2

  open_object-Steady : (s : Store) (hash dek : Bytes) → Steady (open_object p s hash dek)
  open_object-Steady s hash dek =
      Steady-of_Keeps (open_object p s hash dek) λ d. Keeps-open_object p (λ x. x ≡ d) s hash dek

  -- A download that succeeds is of a node of the tables, with its blob, that the decision function
  -- lets the user download; it returns bytes whose SHA-256 is the address of that blob, whatever
  -- stands on the disk, and leaves the tables as they are.
  pub download_ok :
      (r : Repo) (u : User) (id : String) (w : World) {node : Node} {plain : Bytes} {w' : World}
      → download p r u id w ≡ (ok (node, plain), w')
      → Downloaded p u id w.db node plain × (w'.db ≡ w.db)
  unfolding download pure
  download_ok r u id w {node} {plain} {w'} h = bind_ok _ _ w h λ st w1 let_in h1.
      bind_ok _ _ w1 h1 λ text w2 opened h2. bind_ok _ _ w2 h2 λ _ w3 recorded h3.
        let (loaded, allowed, db1) = authorize_ok p u id action_download w let_in in
        let did = rescue_ok _ _ w1 (λ e w a w'. refuses p _ true _ w a w') opened in
        let digest = open_object_sound r.store st.blob_hash st.wrapped_dek w1 did in
        let db2 = Steady-eq _ w1 (open_object-Steady r.store st.blob_hash st.wrapped_dek) did in
        (
          record {
            state = st;
            loaded = loaded;
            allowed = allowed;
            shown = cc h3;
            digest = ap p.sha256 (cc h3) ∙ digest;
          },
          cc (h3, record_event_db p _ w2 recorded, db2, db1),
        )
