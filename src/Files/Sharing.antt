-- ===== src/Files/Sharing.antt =====
-- internal/files/files.go: `Share` and `Revoke`.
use securevault.Database.Schema.{named}
use securevault.Audit.{result_ok, record_event}
use securevault.Files.Statements.{upsert_grant, select_user_id, delete_grant}
use securevault.Authz.{role_viewer, role_editor, action_share}
use securevault.Effect.{or_raise, query, run, raise_if, ◌>>=◌, ◌>>◌}
use securevault.Effect.{M}
use securevault.Auth.User.{User}
use securevault.Files.Node.{event, authorize}
use securevault.Platform.{Platform}
use securevault.Base.{◌==◌, nat_eq, string_eq, bytes_eq, validation, not, ◌&&◌}
use Prim.Native.String.{String, ◌++◌ as concat}

module _ (p : Platform) where
  unfoldable pub share : User → String → String → String → M (Unit {0})
  unfolding authorize
  share u id grantee_name role = do
    raise_if (not (role == role_editor) && not (role == role_viewer)) validation
    st ← authorize p u id action_share
    found ← query p (select_user_id grantee_name)
    grantee ← or_raise found validation
    raise_if (grantee == st.owner_id) validation
    run p (
        upsert_grant
          (record { node_id = id; grantee_id = grantee; role = role; granted_by = u.id }))
    record_event p
        (event u "share.grant" (named id) result_ok (concat role (concat ":" grantee_name)))

  unfoldable pub revoke : User → String → String → M (Unit {0})
  unfolding authorize
  revoke u id grantee_name = do
    st ← authorize p u id action_share
    rows ← run p (delete_grant id grantee_name)
    raise_if (rows == 0) validation
    record_event p (event u "share.revoke" (named id) result_ok grantee_name)
