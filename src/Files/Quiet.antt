-- ===== src/Files/Quiet.antt =====
-- The operations on files that create and delete no node, for anything that their calls keep.
use securevault.Files.Statements.{rename_node, delete_grant, upsert_grant}
use securevault.Authz.{Action}
use securevault.Files.Access.{rename_file, download}
use securevault.Auth.User.{User}
use securevault.Files.Sharing.{revoke, share}
use securevault.Files.Listing.{list_nodes, stat}
use securevault.Effect.Keeps.{Keeps-modify, Keeps-call, keeps_rules, Keeps}
use securevault.Files.Node.{load_node, authorize, Repo}
use securevault.Audit.{append_event, Event, record_event}
use securevault.Storage.Store.{open_object, Store}
use securevault.Database.Schema.{GrantRow, Db}
use securevault.Effect.{run, call, modify, query}
use securevault.Base.{nat_eq, string_eq, Bytes, bytes_eq, ℕ, String, List}
use securevault.Platform.{Platform}

-- What holds of the tables and of the disk, kept by the calls that these operations make.
pub record IsQuiet (p : Platform) (P : Db → List (Bytes × Bytes) → Type 0) : Type 0 where
  pub on_open :
      (s : Store) (hash wrapped : Bytes) → Keeps (λ w. P w.db w.disk) (open_object p s hash wrapped)
  pub on_grant : (g : GrantRow) → Keeps (λ w. P w.db w.disk) (run p (upsert_grant g))
  pub on_revoke : (node name : String) → Keeps (λ w. P w.db w.disk) (run p (delete_grant node name))
  pub on_rename :
      (id : String) (name : Bytes) (now : ℕ)
      → Keeps (λ w. P w.db w.disk) (run p (rename_node id name now))

module _ (p : Platform) (P : Db → List (Bytes × Bytes) → Type 0) where
  pub Keeps-tick : Keeps (λ w. P w.db w.disk) (call p)
  Keeps-tick = Keeps-call p λ w h. h

  Keeps-append : (at : ℕ) (e : Event) → Keeps (λ w. P w.db w.disk) (modify (append_event p at e))
  Keeps-append at e = Keeps-modify _ λ w h. h

  -- An audit event and a query change no table and no file.
  pub record_event-Keeps : (e : Event) → Keeps (λ w. P w.db w.disk) (record_event p e)
  unfolding record_event
  record_event-Keeps e = search (keeps_rules, Keeps-tick, Keeps-append) depth 8

  pub query-Keeps : {A : Type 0} (f : Db → A) → Keeps (λ w. P w.db w.disk) (query p f)
  unfolding query
  query-Keeps f = search (keeps_rules, Keeps-tick) depth 8

  load_node-Keeps : (id : String) → Keeps (λ w. P w.db w.disk) (load_node p id)
  unfolding load_node
  load_node-Keeps id = search (keeps_rules, query-Keeps) depth 8

  pub authorize-Keeps :
      (u : User) (id : String) (action : Action)
      → Keeps (λ w. P w.db w.disk) (authorize p u id action)
  unfolding authorize
  authorize-Keeps u id action = search (keeps_rules, load_node-Keeps, record_event-Keeps) depth 9

module _ (p : Platform) (P : Db → List (Bytes × Bytes) → Type 0) (q : IsQuiet p P) (r : Repo) where
  pub share-Keeps :
      (u : User) (id grantee_name role : String)
      → Keeps (λ w. P w.db w.disk) (share p u id grantee_name role)
  unfolding share
  share-Keeps u id grantee_name role =
      search (keeps_rules, q.on_grant, query-Keeps p P, authorize-Keeps p P, record_event-Keeps p P)
        depth 14

  pub revoke-Keeps :
      (u : User) (id grantee_name : String)
      → Keeps (λ w. P w.db w.disk) (revoke p u id grantee_name)
  unfolding revoke
  revoke-Keeps u id grantee_name =
      search (keeps_rules, q.on_revoke, authorize-Keeps p P, record_event-Keeps p P) depth 12

  pub rename_file-Keeps :
      (u : User) (id : String) (name : Bytes)
      → Keeps (λ w. P w.db w.disk) (rename_file p r u id name)
  unfolding rename_file
  rename_file-Keeps u id name =
      search (keeps_rules, q.on_rename, authorize-Keeps p P, record_event-Keeps p P) depth 12

  pub download-Keeps : (u : User) (id : String) → Keeps (λ w. P w.db w.disk) (download p r u id)
  unfolding download
  download-Keeps u id =
      search (keeps_rules, q.on_open, authorize-Keeps p P, record_event-Keeps p P) depth 12

  pub stat-Keeps : (u : User) (id : String) → Keeps (λ w. P w.db w.disk) (stat p u id)
  unfolding stat
  stat-Keeps u id = search (keeps_rules, query-Keeps p P, authorize-Keeps p P) depth 12

  pub list_nodes-Keeps : (u : User) → Keeps (λ w. P w.db w.disk) (list_nodes p u)
  unfolding list_nodes
  list_nodes-Keeps u = query-Keeps p P _
