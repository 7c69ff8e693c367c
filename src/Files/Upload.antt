-- ===== src/Files/Upload.antt =====
-- internal/files/files.go: `Upload` and `insertUpload`.
use securevault.Files.Validate.Content.{validate_content}
use securevault.Audit.{result_ok, result_denied, record_event}
use securevault.Effect.{finally, pure, gets, transaction, clock, lift, query, ◌>>=◌, ◌>>◌}
use securevault.Files.Validate.{sanitize_filename}
use securevault.Files.Statements.{insert_node, select_refs, add_reference, insert_blob}
use securevault.Effect.{raise, rescue, run, M}
use securevault.Database.Schema.{named, named, file_name, NodeRow}
use securevault.Auth.User.{User}
use securevault.Files.Node.{event, Node, Repo}
use securevault.Storage.Store.{stage, abort, commit, Staged, read_all, Reader}
use securevault.Platform.{Platform}
use securevault.Base.{
  if◌then◌else◌, nat_eq, string_eq, Bytes, bytes_eq, length, take, drop, Error, Result,
  unique_violation, too_large, unexpected_eof, pg, ok, err, ℕ, String, Bool, true, false, Option,
  none, some, ◌++◌,
}

-- io.MultiReader: the head that was read, and what follows it in the body.
unfoldable pub multi_reader : Bytes → Reader → Reader
multi_reader head body = record {
  content = head ++ drop (length head) body.content;
  failure = body.failure;
}

abbrev pub head_size : ℕ
head_size = 512

abbrev pub is_unexpected_eof : Error → Bool
is_unexpected_eof unexpected_eof = true
is_unexpected_eof _ = false

abbrev pub end_early : Bytes → Result Bytes → Result Bytes
end_early head (ok b) = ok b
end_early head (err e) = if is_unexpected_eof e then ok head else err e

-- io.ReadFull of the head: a short body is no error, and neither is one that says itself that it
-- ends early.
abbrev pub read_head : Reader → Result Bytes
read_head body = end_early (take head_size body.content) (read_all body head_size)

abbrev pub is_too_large : Error → Bool
is_too_large too_large = true
is_too_large _ = false

-- A *pgconn.PgError with the code 23505.
abbrev pub is_unique_violation : Error → Bool
is_unique_violation (pg unique_violation) = true
is_unique_violation _ = false

module _ (p : Platform) (r : Repo) where
  -- The two ways to have the content stored, before the node is inserted.
  unfoldable pub reference_blob : Staged → Option ℕ → M (Unit {0})
  reference_blob staged none =
      run p (insert_blob staged.hash staged.size staged.wrapped_dek) >> commit p r.store staged
  reference_blob staged (some refs) = run p (add_reference staged.hash) >> abort p staged

  abbrev pub new_node : User → Bytes → String → Staged → String → ℕ → NodeRow
  new_node u name mime staged id now = record {
    id = id;
    owner_id = u.id;
    blob_hash = staged.hash;
    display_name = name;
    mime_type = mime;
    created_at = now;
    updated_at = now;
  }

  -- The node that `insertUpload` returns for its row.
  abbrev pub uploaded : User → Staged → NodeRow → Node
  uploaded u staged n = record {
    id = n.id;
    name = n.display_name;
    mime_type = n.mime_type;
    size = staged.size;
    owner_name = u.username;
    my_role = "owner";
    created_at = n.created_at;
    updated_at = n.updated_at;
  }

  -- The body of the transaction, of which `now` is the start.
  unfoldable pub insert_body : User → Bytes → String → Staged → ℕ → M NodeRow
  unfolding reference_blob
  insert_body u name mime staged now = do
    refs ← query p (select_refs staged.hash)
    reference_blob staged refs
    id ← gets (λ w. p.uuid w.step)
    let row = new_node u name mime staged id now
    run p (insert_node row)
    pure row

  unfoldable pub insert_upload : User → Bytes → String → Staged → M Node
  unfolding insert_body
  insert_upload u name mime staged = do
    now ← clock p
    row ← transaction p (insert_body u name mime staged now)
    pure (uploaded u staged row)

  -- The two attempts.
  unfoldable pub insert_twice : User → Bytes → String → Staged → M Node
  unfolding insert_upload
  insert_twice u name mime staged =
      rescue (λ e. if is_unique_violation e then insert_upload u name mime staged else raise e)
        (insert_upload u name mime staged)

  unfoldable pub upload : User → Bytes → String → Reader → M Node
  unfolding insert_twice
  upload u filename mime body = do
    let name = sanitize_filename p filename
    head ← lift (read_head body)
    mime_type ←
        rescue
          (λ e.
            record_event p (event u "file.upload" (file_name name) result_denied "type_mismatch")
            >> raise e)
          (lift (validate_content p mime head))
    staged ←
        rescue
          (λ e.
            if is_too_large e
            then (record_event p (event u "file.upload" (file_name name) result_denied "too_large")
                >> raise e)
            else raise e)
          (stage p r.store (multi_reader head body) r.max_bytes)
    finally (abort p staged) (do
      node ← insert_twice u name mime_type staged
      record_event p (event u "file.upload" (named node.id) result_ok "")
      pure node)
