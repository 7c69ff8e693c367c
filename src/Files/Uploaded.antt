-- ===== src/Files/Uploaded.antt =====
-- What an upload that succeeds has stored.
use securevault.Audit.Laws.{record_event_db}
use securevault.Files.Counts.Calls.{Keeps-abort, Keeps-stage}
use securevault.Files.Validate.Content.{validate_content}
use securevault.Effect.RollsBack.{Steady-of_Keeps, Steady-eq}
use securevault.Storage.Staging.{stage-IsStaged}
use securevault.Effect.Bind.{finally_ok, rescue_ok, lift_ok, bind_ok}
use securevault.Platform.Laws.{IsCryptoLawful}
use securevault.Files.Rollback.{refuses, insert_upload-RollsBack}
use securevault.Files.Upload.{end_early, read_head, upload}
use securevault.Files.Validate.{sanitize_filename}
use securevault.Files.Counts.Uploads.{insert_upload_ok, Inserted}
use securevault.Database.Schema.{Db, NodeRow}
use securevault.Auth.User.{User}
use securevault.Files.Upload.{
  is_too_large, is_unique_violation, insert_upload, uploaded, multi_reader, insert_twice,
}
use securevault.Files.Node.{Node, Repo}
use securevault.Storage.Store.{stage, max_int64, Staged, Reader, read_all}
use securevault.Effect.{pure, raise, handle, rescue, World}
use mathlib.Core.Path.{subst}
use securevault.Base.{
  ltb, if◌then◌else◌, Bool-cases, nat_eq, string_eq, Bytes, bytes_eq, length, take, drop, Error,
  Result, ok, err, ℕ, zero, suc, ◌≤◌, ◌<◌, String, ◌≡◌, refl, sym, ap, ◌∙◌, ◌⊎◌, inl, inr, Bool,
  true, false, [], ◌∷◌, ◌++◌, arith,
}
use securevault.Platform.{Platform}

take_rest : (n : ℕ) (s : Bytes) → take n s ++ drop (length (take n s)) s ≡ s
take_rest zero s = refl
take_rest (suc n) [] = refl
take_rest (suc n) (b ∷ s) = ap (λ t. b ∷ t) (take_rest n s)

all_rest : (s : Bytes) → s ++ drop (length s) s ≡ s
all_rest [] = refl
all_rest (b ∷ s) = ap (λ t. b ∷ t) (all_rest s)

read_all_or :
    (body : Reader) (n : ℕ) (head : Bytes)
    → read_all body n ≡ ok head
    → (head ≡ body.content) ⊎ (head ≡ take n body.content)
unfolding read_all
read_all_or body n head h = elim (Bool-cases (ltb (length body.content) n)) [
  | inl short ↦ inl (ground arith)
  | inr long ↦ inr (ground arith)
]

read_head_or :
    (body : Reader) (head : Bytes)
    → read_head body ≡ ok head
    → (head ≡ body.content) ⊎ (head ≡ take 512 body.content)
read_head_or body head h = go (read_all body 512) refl h
  where
    go :
        (x : Result Bytes)
        → read_all body 512 ≡ x
        → end_early (take 512 body.content) x ≡ ok head
        → (head ≡ body.content) ⊎ (head ≡ take 512 body.content)
    go (ok b) e k = read_all_or body 512 head (e ∙ k)
    go (err x) e k = inr (ground (arith, k))

-- The head that was read and the rest of the body are the body.
head_rest :
    (body : Reader) (head : Bytes)
    → read_head body ≡ ok head
    → (multi_reader head body).content ≡ body.content
unfolding multi_reader
head_rest body head h = elim (read_head_or body head h) [
  | inl e ↦ rw (e) (all_rest body.content)
  | inr e ↦ rw (e) (take_rest 512 body.content)
]

-- What `uploaded` returns, for a row that was inserted with the digest of the content.
pub record Uploaded (p : Platform) (r : Repo) (u : User) (filename : Bytes) (declared : String)
    (body : Reader) (d : Db) (node : Node) (d' : Db) : Type 0 where
  pub row : NodeRow
  pub staged : Staged
  pub mime : String
  pub head : Bytes
  pub read : read_head body ≡ ok head
  pub accepted : validate_content p declared head ≡ ok mime
  pub returned : node ≡ uploaded p r u staged row
  pub inserted : Inserted u (sanitize_filename p filename) mime staged d row d'
  pub digest : staged.hash ≡ p.sha256 body.content
  pub size_eq : staged.size ≡ length body.content
  pub within : length body.content ≤ r.max_bytes

module _ (p : Platform) (r : Repo) where
  insert_twice_ok :
      (u : User) (name : Bytes) (mime : String) (staged : Staged) (w : World) {node : Node}
      {w' : World}
      → insert_twice p r u name mime staged w ≡ (ok node, w')
      → (n : NodeRow) × (node ≡ uploaded p r u staged n) × Inserted u name mime staged w.db n w'.db
  unfolding insert_twice rescue raise
  insert_twice_ok u name mime staged w {node} {w'} h =
      go (insert_upload p r u name mime staged w) refl h
    where
      again :
          (b : Bool) (x : Error) (w1 : World)
          → w1.db ≡ w.db
          → (if b then insert_upload p r u name mime staged else raise x) w1 ≡ (ok node, w')
          → (n : NodeRow) × (node ≡ uploaded p r u staged n)
            × Inserted u name mime staged w.db n w'.db
      again true x w1 same k =
          subst
            (λ d.
              (n : NodeRow) × (node ≡ uploaded p r u staged n)
              × Inserted u name mime staged d n w'.db)
            same (insert_upload_ok p r u name mime staged w1 k)
      again false x w1 same k = absurd (cc k)

      go :
          (x : Result Node × World)
          → insert_upload p r u name mime staged w ≡ x
          → handle
              (λ e. if is_unique_violation e then insert_upload p r u name mime staged else raise e)
              x
            ≡ (ok node, w')
          → (n : NodeRow) × (node ≡ uploaded p r u staged n)
            × Inserted u name mime staged w.db n w'.db
      go (ok m, w1) e k = insert_upload_ok p r u name mime staged w (e ∙ k)
      go (err x, w1) e k =
          again (is_unique_violation x) x w1
            ((insert_upload-RollsBack p r u name mime staged).at w x w1 e) k

  -- Where the cipher and the digest are lawful and the upload limit is below the largest int64: an
  -- upload that succeeds, at the first attempt or the second, has a content within the limit and a
  -- type that the content check accepts, has added one node of the user with a new id, the
  -- sanitized name, that type and the digest of all of the content as its address, and one
  -- reference to the blob of it with its length, and has changed nothing else in the tables; the
  -- node that is returned is that row.
  pub upload_ok :
      (u : User) (filename : Bytes) (mime : String) (body : Reader) (w : World) {node : Node}
      {w' : World}
      → IsCryptoLawful p
      → r.max_bytes < max_int64
      → upload p r u filename mime body w ≡ (ok node, w')
      → Uploaded p r u filename mime body w.db node w'.db
  unfolding upload pure
  upload_ok u filename mime body w {node} {w'} law small h = bind_ok _ _ w h λ head w1 read h1.
      bind_ok _ _ w1 h1 λ mime_type w2 checked h2. bind_ok _ _ w2 h2 λ staged w3 did h3.
        finally_ok _ _ w3 h3 λ w4 inner after. bind_ok _ _ w3 inner λ node' w5 twice h5.
          bind_ok _ _ w5 h5 λ _ w6 recorded h6.
            let (head_eq, same1) = lift_ok _ w read in
            let (accepted, same2) =
              lift_ok _ w1 (rescue_ok _ _ w1 (λ e w1 a w'. refuses p _ true e w1 a w') checked) in
            let staging =
              rescue_ok _ _ w2 (λ e w1 a w'. refuses p _ (is_too_large e) e w1 a w') did in
            let (i, within) =
              stage-IsStaged p r.store _ r.max_bytes w2 staged w3 law small staging in
            let all = head_rest body head head_eq in
            let (n, returned, inserted) = insert_twice_ok u _ mime_type staged w3 twice in
            let before : w3.db ≡ w.db =
              Steady-eq (stage p r.store (multi_reader head body) r.max_bytes) w2
                (Steady-of_Keeps _
                  λ d. Keeps-stage p (λ x. x ≡ d) r.store (multi_reader head body) r.max_bytes)
                staging
              ∙ ap (λ (v : World). v.db) (same2 ∙ same1) in
            let behind : w'.db ≡ w5.db =
              ap (λ (v : World). v.db) after
              ∙ ((Steady-of_Keeps _ λ d. Keeps-abort p (λ x. x ≡ d) staged).at w4
                  ∙ cc (h6, record_event_db p _ w5 recorded)) in
            record {
              row = n;
              staged = staged;
              mime = mime_type;
              head = head;
              read = head_eq;
              accepted = accepted;
              returned = cc (returned, h6);
              inserted =
                  subst (λ d. Inserted u (sanitize_filename p filename) mime_type staged d n w'.db)
                    before
                    (subst
                      (λ d. Inserted u (sanitize_filename p filename) mime_type staged w3.db n d)
                      (sym behind) inserted);
              digest = i.digest ∙ ap p.sha256 all;
              size_eq = i.size ∙ ap length all;
              within = subst (λ n. n ≤ r.max_bytes) (i.size ∙ ap length all) within;
            }
