-- ===== src/Files/Access.antt =====
-- internal/files/files.go: `Download`, `Rename` and `Delete`.
use securevault.Database.Schema.{named}
use securevault.Audit.{result_ok, result_error, record_event}
use securevault.Files.Statements.{rename_node, delete_blob, drop_reference, delete_node}
use securevault.Files.Validate.{sanitize_filename}
use securevault.Storage.Store.{open_object, remove}
use securevault.Authz.{action_rename, action_delete, action_download}
use securevault.Effect.{raise, clock, pure, rescue, run, ◌>>=◌, ◌>>◌}
use securevault.Effect.{transaction, M}
use securevault.Auth.User.{User}
use securevault.Files.Node.{event, Node, authorize, Repo}
use securevault.Platform.{Platform}
use securevault.Base.{
  if◌then◌else◌, ◌==◌, nat_eq, string_eq, Bytes, bytes_eq, Error, no_object, corrupt, integrity, ℕ,
  String,
}

-- The reason that is audited for an error of the store.
abbrev pub failure_reason : Error → String
failure_reason corrupt = "integrity_failure"
failure_reason no_object = "integrity_failure"
failure_reason _ = "storage_error"

module _ (p : Platform) (r : Repo) where
  unfoldable pub download : User → String → M (Node × Bytes)
  unfolding authorize
  download u id = do
    st ← authorize p u id action_download
    plain ←
        rescue
          (λ e.
            record_event p (event u "file.download" (named id) result_error (failure_reason e))
            >> raise integrity)
          (open_object p r.store st.blob_hash st.wrapped_dek)
    record_event p (event u "file.download" (named id) result_ok "")
    pure (st.node, plain)

  unfoldable pub rename_file : User → String → Bytes → M Node
  unfolding authorize
  rename_file u id new_name = do
    st ← authorize p u id action_rename
    let name = sanitize_filename p new_name
    now ← clock p
    run p (rename_node id name now)
    record_event p (event u "file.rename" (named id) result_ok "")
    pure (record st.node { name = name; updated_at = now })

  unfoldable pub delete_body : String → Bytes → M ℕ
  delete_body id hash = do
    run p (delete_node id)
    refs ← run p (drop_reference hash)
    if refs == 0 then run p (delete_blob hash) else pure tt
    pure refs

  -- The metadata transaction of `Delete`.
  unfoldable pub delete_rows : String → Bytes → M ℕ
  unfolding delete_body
  delete_rows id hash = transaction p (delete_body id hash)

  -- What follows the commit of it.
  unfoldable pub delete_object : User → String → Bytes → ℕ → M (Unit {0})
  delete_object u id hash refs = do
    if refs == 0 then remove p r.store hash else pure tt
    record_event p (event u "file.delete" (named id) result_ok "")

  unfoldable pub delete_file : User → String → M (Unit {0})
  unfolding authorize delete_rows delete_object
  delete_file u id = do
    st ← authorize p u id action_delete
    refs ← delete_rows id st.blob_hash
    delete_object u id st.blob_hash refs
