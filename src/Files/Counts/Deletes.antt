-- ===== src/Files/Counts/Deletes.antt =====
-- What the transaction of a delete does to the tables when it is committed.
use securevault.Effect.Bind.{bind_ok}
use securevault.Files.Node.{Repo}
use securevault.Files.Counts.Deleted.{without_reference, drop_one, without_node}
use securevault.Files.Counts.{refs_of}
use securevault.Database.Table.{update, delete}
use securevault.Database.Schema.{Db}
use securevault.Files.Access.{delete_body}
use securevault.Files.Statements.{delete_node, delete_blob, drop_reference}
use securevault.Base.{
  if◌then◌else◌, ◌==◌, nat_eq, string_eq, Bytes, bytes_eq, ok, ℕ, zero, suc, String, ◌≡◌, sym, ap,
  ◌∙◌, Bool, true, false, arith,
}
use securevault.Platform.{Platform}
use securevault.Effect.{run, World, pure}
use securevault.Effect.Runs.{run_ok}

delete_node_did :
    (id : String) (d : Db) {a : Unit {0}} {d' : Db}
    → delete_node id d ≡ ok (a, d')
    → d' ≡ without_node id d
unfolding delete_node
delete_node_did id d h = ground arith

drop_reference_did :
    (hash : Bytes) (d : Db) {n : ℕ} {d' : Db}
    → drop_reference hash d ≡ ok (n, d')
    → (suc n ≡ refs_of d hash)
      × (d' ≡ record d { blobs = update (λ b. b.hash) hash drop_one d.blobs })
unfolding drop_reference
drop_reference_did hash d h = ground arith

delete_blob_did :
    (hash : Bytes) (d : Db) {a : Unit {0}} {d' : Db}
    → delete_blob hash d ≡ ok (a, d')
    → d' ≡ record d { blobs = delete (λ b. b.hash) hash d.blobs }
unfolding delete_blob
delete_blob_did hash d h = ground arith

abbrev lower : Bytes → Db → Db
lower hash d = record d { blobs = update (λ b. b.hash) hash drop_one d.blobs }

abbrev forget : Bytes → Db → Db
forget hash d = record d { blobs = delete (λ b. b.hash) hash d.blobs }

no_last : (n : ℕ) → (suc n == 0) ≡ false
no_last n = ground arith

no_one : (n : ℕ) → (suc (suc n) == 1) ≡ false
no_one n = ground arith

forget_last :
    (hash : Bytes) (n : ℕ) (d : Db)
    → suc n ≡ refs_of d hash
    → (if n == 0 then forget hash (lower hash d) else lower hash d) ≡ without_reference hash d
forget_last hash zero d h = rw (← h)
forget_last hash (suc n) d h = rw (← h, no_last n, no_one n)

module _ (p : Platform) (r : Repo) where
  last_ok :
      (hash : Bytes) (b : Bool) (w : World) {a : Unit {0}} {w' : World}
      → (if b then run p (delete_blob hash) else pure tt) w ≡ (ok a, w')
      → w'.db ≡ (if b then forget hash w.db else w.db)
  unfolding pure
  last_ok hash true w h = delete_blob_did hash w.db (run_ok p _ w h).did
  last_ok hash false w h = cc h

  -- The statements of a delete, where they succeed, remove the node with its grants and one
  -- reference of the blob, and the row of the blob with the last one, change nothing else in the
  -- tables, and return the number of references that are left.
  pub delete_body_ok :
      (id : String) (hash : Bytes) (w : World) {left : ℕ} {w' : World}
      → delete_body p r id hash w ≡ (ok left, w')
      → (suc left ≡ refs_of w.db hash) × (w'.db ≡ without_reference hash (without_node id w.db))
  unfolding delete_body pure
  delete_body_ok id hash w {left} {w'} h = bind_ok _ _ w h λ _ w1 cut h1.
      bind_ok _ _ w1 h1 λ n w2 dropped_one h2. bind_ok _ _ w2 h2 λ _ w3 last h3.
        let s1 = run_ok p _ w cut in
        let s2 = run_ok p _ w1 dropped_one in
        let db1 : w1.db ≡ without_node id w.db = delete_node_did id w.db s1.did in
        let (left_eq, db2) = drop_reference_did hash w1.db s2.did in
        let db3 = last_ok hash (n == 0) w2 last in
        let end : w'.db ≡ w3.db = cc h3 in
        let n_eq : n ≡ left = cc h3 in
        (
          ap suc (sym n_eq) ∙ (left_eq ∙ ap (λ d. refs_of d hash) db1),
          end
              ∙ (db3
                  ∙ (ap (λ d. if n == 0 then forget hash d else d) db2
                      ∙ (forget_last hash n w1.db left_eq ∙ ap (without_reference hash) db1))),
        )
