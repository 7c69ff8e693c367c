-- ===== src/Files/Stored/Served.antt =====
-- Every operation on files keeps the blobs of the tables held, however it ends.
use securevault.Files.Rollback.{refuses}
use securevault.Storage.Staging.{stage-IsStaged}
use securevault.Effect.Bind.{rescue_ok, bind_cases}
use securevault.Audit.{result_ok, record_event}
use securevault.Files.Upload.{upload}
use securevault.Effect.{pure, ◌>>=◌, ◌>>◌}
use securevault.Files.Stored.Blobs.{with_reference-AllHeld}
use securevault.Files.Counts.Uploads.{insert_body_ok}
use securevault.Files.Stored.Uploads.{
  insert_body-AtHand, insert_body_publishes, insert_body-Promised,
}
use securevault.Database.Table.{find}
use securevault.Storage.Tables.{Tables-abort, Tables-stage, Tables-open_object}
use securevault.Effect.Files.{transaction-Keeps, transaction_with, Keeps-run}
use securevault.Files.Stored.Finished.{IsAtHand}
use securevault.Auth.User.{User}
use securevault.Files.Upload.{is_too_large, multi_reader, insert_body, insert_twice, insert_upload}
use securevault.Files.Stored.Kept.{abort-Promised, stage-Promised, open_object-Promised, IsSealed}
use securevault.Files.Counts.Others.{rename_node_did, delete_grant_did, upsert_grant_did}
use securevault.Files.Quiet.{record_event-Keeps, IsQuiet}
use securevault.Effect.Keeps.{Keeps-rescue, Keeps-pure, Keeps-gets, Keeps-bind, keeps_rules, Keeps}
use securevault.Files.Held.{Held, Stored-of_AllHeld, AllHeld}
use securevault.Platform.Laws.{IsDigestLawful, IsCryptoLawful}
use securevault.Database.Schema.{named, NodeRow, BlobRow, Db}
use securevault.Storage.Store.{max_int64, stage, abort, Reader, Staged, Store}
use securevault.Files.Node.{Node, event, Repo}
use securevault.Effect.{finally, tick, transaction, World, run, Statement}
use mathlib.Core.Path.{subst}
use securevault.Base.{
  nat_eq, string_eq, Bytes, bytes_eq, Result, ok, ℕ, ◌<◌, String, ◌≡◌, sym, some,
}
use securevault.Platform.{Platform}

module _ (p : Platform) (s : Store) where
  run-AllHeld :
      {A : Type 0} (m : Statement A)
      → ((d : Db) (a : A) (d' : Db) → m d ≡ ok (a, d') → d'.blobs ≡ d.blobs)
      → Keeps (λ w. AllHeld p s w.db w.disk) (run p m)
  run-AllHeld m same = Keeps-run p (AllHeld p s) m λ d disk a d' held h.
      subst
        (λ bs.
          (h : Bytes) (b : BlobRow)
          → find (λ b. b.hash) h bs ≡ some b
          → Held p s h b.wrapped_dek b.size_bytes disk)
        (sym (same d a d' h)) held

module _ (p : Platform) (r : Repo) (law : IsCryptoLawful p) (bytes : IsDigestLawful p) where
  -- Grants and names are written without a change of the blobs, and a read changes no file.
  pub AllHeld-IsQuiet : IsQuiet p (AllHeld p r.store)
  AllHeld-IsQuiet = record {
    on_open = λ s hash wrapped.
        Stored-of_AllHeld p r.store _ (λ d es. Tables-open_object p d es s hash wrapped)
          λ d. open_object-Promised p r.store law bytes d s hash wrapped;
    on_grant = λ g. run-AllHeld p r.store _ λ d a d' h. (upsert_grant_did g d h).0;
    on_revoke = λ node name. run-AllHeld p r.store _ λ d a d' h. (delete_grant_did node name d h).0;
    on_rename =
        λ id name now. run-AllHeld p r.store _ λ d a d' h. (rename_node_did id name now d h).0;
  }

  module _ (staged : Staged) (content raw : Bytes)
      (sealed : IsSealed p r.store staged content raw) where
    -- The blobs of the tables are held, and the staged object is at hand.
    abbrev Ready : World → Type 0
    Ready w = AllHeld p r.store w.db w.disk × IsAtHand staged raw w.disk w.done

    insert_body-Ready :
        (u : User) (name : Bytes) (mime : String) (now : ℕ)
        → Keeps Ready (transaction p (insert_body p r u name mime staged now))
    insert_body-Ready u name mime now = record {
      at = λ w (held, k).
          let body = insert_body p r u name mime staged now in
          let kept =
            insert_body-Promised p r law bytes staged content raw sealed u name mime now (tick w)
              held in
          (
            transaction_with p (AllHeld p r.store) body w held kept λ n w2 did.
                let i = insert_body_ok p r u name mime staged now (tick w) did in
                subst (λ d. AllHeld p r.store d w2.disk) (sym i.tables)
                  (with_reference-AllHeld p r.store w2.disk staged.hash staged.size
                    staged.wrapped_dek w.db
                    (subst (λ (x : Result NodeRow × World). AllHeld p r.store w.db x.1.disk) did
                      kept)
                    λ absent. record {
                      text = content;
                      raw = raw;
                      file =
                          insert_body_publishes p r law bytes staged content raw sealed u name mime
                            now (tick w) did k absent;
                      digest = sealed.digest;
                      size_eq = sealed.size_eq;
                      opens = sealed.opens;
                    }),
            (transaction-Keeps p (IsAtHand staged raw) body
                  (insert_body-AtHand p r law bytes staged content raw sealed u name mime now)).at
                w k,
          );
    }

    insert_upload-Ready :
        (u : User) (name : Bytes) (mime : String)
        → Keeps Ready (insert_upload p r u name mime staged)
    unfolding insert_upload
    insert_upload-Ready u name mime =
        Keeps-bind _ _ (Keeps-gets _)
          λ now. Keeps-bind _ _ (insert_body-Ready u name mime now) λ row. Keeps-pure _

    insert_twice-Ready :
        (u : User) (name : Bytes) (mime : String)
        → Keeps Ready (insert_twice p r u name mime staged)
    unfolding insert_twice
    insert_twice-Ready u name mime = search (keeps_rules, insert_upload-Ready) depth 8

    -- With the deferred abort.
    finish-AllHeld :
        (u : User) (name : Bytes) (mime : String) (w : World)
        → Ready w
        → let w' =
            (finally
              (abort p staged)
              (do
                node ← insert_twice p r u name mime staged
                record_event p (event u "file.upload" (named node.id) result_ok "")
                pure node)
              w).1 in
          AllHeld p r.store w'.db w'.disk
    unfolding finally
    finish-AllHeld u name mime w ready =
        (Stored-of_AllHeld p r.store (abort p staged) (λ d es. Tables-abort p d es staged)
            (λ d. abort-Promised p r.store law bytes d staged content raw sealed)).at
          _
          (bind_cases (λ x. AllHeld p r.store x.1.db x.1.disk) _ _ w
            (λ node w1 did.
              (Keeps-bind {I = λ v. AllHeld p r.store v.db v.disk} _ _
                  (record_event-Keeps p (AllHeld p r.store) _) (λ _. Keeps-pure node)).at
                w1
                (subst (λ (x : Result Node × World). AllHeld p r.store x.1.db x.1.disk) did
                  ((insert_twice-Ready u name mime).at w ready).0))
            (λ e w1 failed.
              subst (λ (x : Result Node × World). AllHeld p r.store x.1.db x.1.disk) failed
                ((insert_twice-Ready u name mime).at w ready).0))

module _ (p : Platform) (r : Repo) (law : IsCryptoLawful p) (bytes : IsDigestLawful p) where
  stage-Stored :
      (body : Reader) (limit : ℕ)
      → Keeps (λ w. AllHeld p r.store w.db w.disk) (stage p r.store body limit)
  stage-Stored body limit =
      Stored-of_AllHeld p r.store _ (λ d es. Tables-stage p d es r.store body limit)
        λ d. stage-Promised p r.store law bytes d body limit

  pub upload-AllHeld :
      (u : User) (filename : Bytes) (mime : String) (body : Reader)
      → r.max_bytes < max_int64
      → Keeps (λ w. AllHeld p r.store w.db w.disk) (upload p r u filename mime body)
  unfolding upload
  upload-AllHeld u filename mime body small = Keeps-bind _ _ (search keeps_rules) λ head.
      Keeps-bind _ _ (search (keeps_rules, record_event-Keeps p (AllHeld p r.store)) depth 8)
        λ mime_type. record {
          at = λ w held.
              let staging =
                Keeps-rescue _ _
                  (λ e. search (keeps_rules, record_event-Keeps p (AllHeld p r.store)) depth 8)
                  (stage-Stored (multi_reader head body) r.max_bytes) in
              bind_cases (λ x. AllHeld p r.store x.1.db x.1.disk) _ _ w
                (λ staged w1 did.
                  let did' =
                    rescue_ok _ _ w (λ e w1 a w'. refuses p _ (is_too_large e) e w1 a w') did in
                  let (i, _) =
                    stage-IsStaged p r.store (multi_reader head body) r.max_bytes w staged w1 law
                      small did' in
                  finish-AllHeld p r law bytes staged _ i.raw
                    (record {
                      suffix = i.suffix;
                      temp = i.temp;
                      digest = i.digest;
                      size_eq = i.size;
                      opens = i.opens;
                    })
                    u _ mime_type w1
                    (
                      subst (λ (x : Result Staged × World). AllHeld p r.store x.1.db x.1.disk) did
                          (staging.at w held),
                      λ _. i.file,
                    ))
                (λ e w1 failed.
                  subst (λ (x : Result Staged × World). AllHeld p r.store x.1.db x.1.disk) failed
                    (staging.at w held));
        }
