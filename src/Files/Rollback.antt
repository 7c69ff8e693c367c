-- ===== src/Files/Rollback.antt =====
-- Uploads that fail change no table, though they may leave a file in the store.
use securevault.Effect.Bind.{bind_ok}
use securevault.Audit.Laws.{record_event-Sure}
use securevault.Database.Schema.{named}
use securevault.Effect.{pure, ◌>>◌}
use securevault.Storage.Store.{abort, Reader, Staged}
use securevault.Effect.RollsBack.{
  Sure-bind, RollsBack-finally, Sure-pure, RollsBack-transaction, RollsBack-bind-Sure,
  RollsBack-raise, RollsBack-if, RollsBack-rescue, RollsBack-bind, RollsBack, Steady-of_Keeps,
}
use securevault.Files.Upload.{insert_twice, upload, insert_upload}
use securevault.Audit.{Event, result_ok, record_event}
use securevault.Auth.User.{User}
use securevault.Files.Node.{event, Repo}
use securevault.Base.{
  if◌then◌else◌, nat_eq, string_eq, Bytes, bytes_eq, Error, ok, err, String, ◌≡◌, ◌≢◌, Bool, true,
  false,
}
use securevault.Platform.{Platform}
use securevault.Effect.{raise, finally, World, ◌>>=◌}
use securevault.Effect.Keeps.{Keeps-gets, Keeps-lift, keeps_rules}
use securevault.Files.Counts.Calls.{Keeps-record_event, Keeps-stage, Keeps-abort}

module _ (p : Platform) (r : Repo) where
  pub insert_upload-RollsBack :
      (u : User) (name : Bytes) (mime : String) (staged : Staged)
      → RollsBack (insert_upload p r u name mime staged)
  unfolding insert_upload
  insert_upload-RollsBack u name mime staged =
      RollsBack-bind _ _ (Steady-of_Keeps _ λ d. Keeps-gets _)
        λ now. RollsBack-bind-Sure _ _ (RollsBack-transaction p _) λ row. Sure-pure _

  insert_twice-RollsBack :
      (u : User) (name : Bytes) (mime : String) (staged : Staged)
      → RollsBack (insert_twice p r u name mime staged)
  unfolding insert_twice
  insert_twice-RollsBack u name mime staged =
      RollsBack-rescue _ _
        (λ e. RollsBack-if _ _ _ (insert_upload-RollsBack u name mime staged) (RollsBack-raise e))
        (insert_upload-RollsBack u name mime staged)

  stored-RollsBack :
      (u : User) (name : Bytes) (mime : String) (staged : Staged)
      → RollsBack (
          finally (abort p staged) (do
            node ← insert_twice p r u name mime staged
            record_event p (event u "file.upload" (named node.id) result_ok "")
            pure node))
  stored-RollsBack u name mime staged =
      RollsBack-finally _ _ (Steady-of_Keeps _ λ d. Keeps-abort p (λ x. x ≡ d) staged) (
        RollsBack-bind-Sure _ _ (insert_twice-RollsBack u name mime staged)
          λ node. Sure-bind _ _ (record_event-Sure p _) λ _. Sure-pure node)

  upload-RollsBack :
      (u : User) (filename : Bytes) (mime : String) (body : Reader)
      → RollsBack (upload p r u filename mime body)
  unfolding upload
  upload-RollsBack u filename mime body =
      RollsBack-bind _ _ (Steady-of_Keeps _ λ d. Keeps-lift _) λ head.
        RollsBack-bind _ _
          (Steady-of_Keeps _ λ d. search (keeps_rules, Keeps-record_event p (λ x. x ≡ d)) depth 8)
          λ mime_type.
            RollsBack-bind _ _
              (Steady-of_Keeps _ λ d.
                search (keeps_rules, Keeps-record_event p (λ x. x ≡ d), Keeps-stage p (λ x. x ≡ d))
                  depth 8)
              λ staged. stored-RollsBack u _ mime_type staged

  -- An upload that ends in an error, at whatever call, has changed no table but the audit log.
  pub upload-eq_of_err :
      (u : User) (filename : Bytes) (mime : String) (body : Reader) (w : World) (e : Error)
      (w' : World)
      → upload p r u filename mime body w ≡ (err e, w')
      → w'.db ≡ w.db
  upload-eq_of_err u filename mime body w e w' h =
      (upload-RollsBack u filename mime body).at w e w' h

module _ (p : Platform) where
  -- An error that is audited, or not, is returned.
  pub refuses :
      {A : Type 0} (e : Event) (b : Bool) (x : Error) (w : World) (a : A) (w' : World)
      → (if b then (record_event p e >> raise x) else raise x) w ≢ (ok a, w')
  unfolding raise
  refuses e true x w a w' h = bind_ok _ _ w h λ _ w1 recorded h1. absurd (cc h1)
  refuses e false x w a w' h = absurd (cc h)
