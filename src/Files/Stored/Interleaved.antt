-- ===== src/Files/Stored/Interleaved.antt =====
-- A delete whose two parts, the transaction and the removal of the object, stand apart, with any
-- requests of others served between them.
use securevault.Files.Preserved.{delete_file_preserves}
use securevault.Files.Counts.Others.{rename_node_did, delete_grant_did, upsert_grant_did}
use securevault.Files.Counts.Inserted.{blob_of-with_reference}
use securevault.Files.Uploaded.{upload_ok}
use securevault.Effect.Files.{Keeps-run}
use securevault.Files.Counts.Deleted.{
  dropped, blob_of-without_reference, without_node, without_reference,
}
use securevault.Files.Rollback.{upload-eq_of_err}
use securevault.Files.Counts.Calls.{Keeps-open_object}
use securevault.Database.Table.{find}
use securevault.Files.Quiet.{
  revoke-Keeps, share-Keeps, rename_file-Keeps, download-Keeps, stat-Keeps, list_nodes-Keeps,
  IsQuiet,
}
use securevault.Database.Schema.{NodeRow, Db}
use securevault.Files.Stored.Always.{perform_all-AllHeld}
use securevault.Files.Stored.Deletes.{delete_rows_last, delete_object-AllHeld, delete_rows-AllHeld}
use securevault.Files.Counts.{refs}
use securevault.Files.Counts.Deletes.{delete_body_ok}
use securevault.Effect.Runs.{transaction_ok}
use securevault.Files.Statements.{node_of, blob_of}
use securevault.Files.Held.{AllHeld}
use securevault.Effect.{tick, World}
use securevault.Files.Requests.{perform, perform_all, Request}
use securevault.Auth.User.{User}
use securevault.Files.Access.{delete_object, delete_rows}
use securevault.Storage.Store.{Reader, max_int64}
use securevault.Platform.Laws.{IsDigestLawful, IsCryptoLawful}
use securevault.Files.Node.{Repo}
use securevault.Files.Requests.{
  put_file, list_files, stat_file, get_file, rename_to, delete_one, share_with, revoke_from,
}
use securevault.Files.Upload.{upload}
use securevault.Files.Node.{Node}
use mathlib.Core.Path.{subst}
use securevault.Base.{
  Bool-cases, Option-cases, ◌==◌, eq_iff, nat_eq, string_eq, Bytes, bytes_eq, count, All, Result,
  ok, err, ℕ, ◌<◌, String, ◌≡◌, refl, sym, ap, ◌∙◌, ◌≢◌, inl, inr, false, none, some, List, [], ◌∷◌,
  arith,
}
use securevault.Platform.{Platform}

-- A request that uploads no content with the digest.
abbrev pub IsOther : Platform → Bytes → Request → Type 0
IsOther p hash (put_file u name mime body) = p.sha256 body.content ≢ hash
IsOther p hash _ = Unit

abbrev Absent : Bytes → Db → Type 0
Absent hash d = blob_of d hash ≡ none

same_blobs : (hash : Bytes) (d d' : Db) → d'.blobs ≡ d.blobs → Absent hash d → Absent hash d'
same_blobs hash d d' e a = ap (find (λ b. b.hash) hash) e ∙ a

Absent-IsQuiet : (p : Platform) (hash : Bytes) → IsQuiet p λ d _. Absent hash d
Absent-IsQuiet p hash = record {
  on_open = λ s h wrapped. Keeps-open_object p (Absent hash) s h wrapped;
  on_grant = λ g.
      Keeps-run p (λ d _. Absent hash d) _
        λ d _ a d' s h. same_blobs hash d d' (upsert_grant_did g d h).0 s;
  on_revoke = λ node name.
      Keeps-run p (λ d _. Absent hash d) _
        λ d _ a d' s h. same_blobs hash d d' (delete_grant_did node name d h).0 s;
  on_rename = λ id name now.
      Keeps-run p (λ d _. Absent hash d) _
        λ d _ a d' s h. same_blobs hash d d' (rename_node_did id name now d h).0 s;
}

Absent-shrinks :
    (hash : Bytes) (n : NodeRow) (d : Db)
    → Absent hash d
    → node_of d n.id ≡ some n
    → Absent hash (without_reference n.blob_hash (without_node n.id d))
Absent-shrinks hash n d a found =
    blob_of-without_reference n.blob_hash (without_node n.id d) hash
    ∙ elim (Bool-cases (n.blob_hash == hash)) [ inl e ↦ rw (e) (ap dropped a) | inr e ↦ rw (e) a ]

module _ (p : Platform) (r : Repo) (law : IsCryptoLawful p) (bytes : IsDigestLawful p)
    (small : r.max_bytes < max_int64) where
  uploaded_other :
      (hash : Bytes) (u : User) (name : Bytes) (mime : String) (body : Reader) (w : World)
      → p.sha256 body.content ≢ hash
      → Absent hash w.db
      → (x : Result Node × World) → upload p r u name mime body w ≡ x
      → Absent hash x.1.db
  uploaded_other hash u name mime body w other a (err e, w') h =
      subst (Absent hash) (sym (upload-eq_of_err p r u name mime body w e w' h)) a
  uploaded_other hash u name mime body w other a (ok node, w') h =
      let k = upload_ok p r u name mime body w law small h in
      let i = k.inserted in
      let apart : (k.staged.hash == hash) ≡ false =
        ground (arith, eq_iff k.staged.hash hash, other, k.digest) in
      subst (Absent hash) (sym i.tables) (
        blob_of-with_reference k.staged.hash k.staged.size k.staged.wrapped_dek w.db hash
        ∙ rw (apart) a)

  perform_other :
      (hash : Bytes) (q : Request) (w : World)
      → IsOther p hash q
      → Absent hash w.db
      → Absent hash (perform p r q w).db
  unfolding perform
  perform_other hash (put_file u name mime body) w o a =
      uploaded_other hash u name mime body w o a _ refl
  perform_other hash (list_files u) w o a =
      (list_nodes-Keeps p (λ d _. Absent hash d) (Absent-IsQuiet p hash) r u).at w a
  perform_other hash (stat_file u id) w o a =
      (stat-Keeps p (λ d _. Absent hash d) (Absent-IsQuiet p hash) r u id).at w a
  perform_other hash (get_file u id) w o a =
      (download-Keeps p (λ d _. Absent hash d) (Absent-IsQuiet p hash) r u id).at w a
  perform_other hash (rename_to u id name) w o a =
      (rename_file-Keeps p (λ d _. Absent hash d) (Absent-IsQuiet p hash) r u id name).at w a
  perform_other hash (delete_one u id) w o a =
      delete_file_preserves p r (Absent hash) (Absent-shrinks hash) u id w a
  perform_other hash (share_with u id name role) w o a =
      (share-Keeps p (λ d _. Absent hash d) (Absent-IsQuiet p hash) r u id name role).at w a
  perform_other hash (revoke_from u id name) w o a =
      (revoke-Keeps p (λ d _. Absent hash d) (Absent-IsQuiet p hash) r u id name).at w a

  perform_all_other :
      (hash : Bytes) (qs : List Request) (w : World)
      → All (IsOther p hash) qs
      → Absent hash w.db
      → Absent hash (perform_all p r qs w).db
  unfolding perform_all
  perform_all_other hash [] w o a = a
  perform_all_other hash (q ∷ qs) w (o, os) a =
      perform_all_other hash qs (perform p r q w) os (perform_other hash q w o a)

  -- What a delete takes a reference from is the digest of a text.
  deleted_text :
      (id : String) (hash : Bytes) (w : World) {left : ℕ} {w1 : World}
      → AllHeld p r.store w.db w.disk
      → delete_rows p r id hash w ≡ (ok left, w1)
      → (text : Bytes) × (hash ≡ p.sha256 text)
  unfolding delete_rows
  deleted_text id hash w {left} held did = transaction_ok p _ w did λ w2 ran same.
      let (count, tables) = delete_body_ok p r id hash (tick w) ran in
      elim (Option-cases (blob_of w.db hash)) [
        | inl absent ↦ absurd (omega (arith, count, ap refs absent))
        | inr (b, found) ↦ let k = held hash b found in (k.text, k.digest)
      ]

  -- Where the cipher and the digest are lawful and the upload limit is below the largest int64: if
  -- every row of the blobs has an object file that opens to a text of its size and digest, the
  -- transaction of a delete succeeds for an address, and requests that upload no content with that
  -- digest are served before the delete removes the object, then every row has such a file after
  -- that too, whatever external calls fail.
  pub delete_object-AllHeld_after :
      (u : User) (id : String) (hash : Bytes) (qs : List Request) (w : World) {left : ℕ}
      {w1 : World}
      → AllHeld p r.store w.db w.disk
      → delete_rows p r id hash w ≡ (ok left, w1)
      → All (IsOther p hash) qs
      → let w2 = (delete_object p r u id hash left (perform_all p r qs w1)).1 in
        AllHeld p r.store w2.db w2.disk
  delete_object-AllHeld_after u id hash qs w {left} {w1} held did others =
      let (text, digest) = deleted_text id hash w held did in
      let held1 : AllHeld p r.store w1.db w1.disk =
        subst (λ (x : Result ℕ × World). AllHeld p r.store x.1.db x.1.disk) did
          (delete_rows-AllHeld p r law bytes id hash w held) in
      delete_object-AllHeld p r law bytes u id text hash left (perform_all p r qs w1) digest
        (λ last.
          perform_all_other hash qs w1 others (delete_rows_last p r law bytes id hash w did last))
        (perform_all-AllHeld p r law bytes small qs w1 held1)
