-- ===== src/Api/Server.antt =====
-- The route table of internal/api/server.go, with the guards of each endpoint. Static files, health
-- and unknown paths touch no state and are left out.
use securevault.Api.Answer.{Response}
use securevault.Auth.User.{User}
use securevault.Api.AdminHandlers.{
  handle_admin_revoke_invite, handle_admin_create_invite, handle_admin_audit, handle_admin_invites,
  handle_admin_users, InviteRequest,
}
use securevault.Api.FileHandlers.{
  handle_revoke, handle_share, handle_rename, handle_delete, handle_download, handle_stat,
  handle_upload, handle_list, Multipart,
}
use securevault.Api.Guards.{require_admin, Client, require_csrf, require_auth, Server}
use securevault.Api.AuthHandlers.{
  handle_change_password, handle_me, handle_logout, handle_login, handle_register,
  handle_registration_status, Credentials, RegisterRequest, PasswordRequest,
}
use securevault.Effect.{M}
use securevault.Base.{nat_eq, string_eq, Bytes, bytes_eq, String, Option, none, some, []}
use securevault.Platform.{Platform}

pub data PublicEndpoint : Type 0 where
  get_registration : PublicEndpoint
  post_register : Option RegisterRequest → PublicEndpoint
  post_login : Option Credentials → PublicEndpoint

-- The endpoints behind requireAuth. The text of a path parameter stands as the client wrote it.
pub data UserEndpoint : Type 0 where
  post_logout get_me get_files : UserEndpoint
  post_password : Option PasswordRequest → UserEndpoint
  post_files : Option Multipart → UserEndpoint
  get_file_info get_content delete_one_file : String → UserEndpoint
  patch_file : String → Option Bytes → UserEndpoint
  put_share : String → Option (String × String) → UserEndpoint
  delete_share : String → String → UserEndpoint
  get_users get_invites : UserEndpoint
  get_audit : Bytes → Bytes → UserEndpoint
  post_invite : Option InviteRequest → UserEndpoint
  delete_invite : String → UserEndpoint

pub data Endpoint : Type 0 where
  for_all : PublicEndpoint → Endpoint
  for_users : UserEndpoint → Endpoint

abbrev pub cookie_value : Option Bytes → Bytes
cookie_value none = []
cookie_value (some value) = value

module _ (p : Platform) (sv : Server) where
  unfoldable pub handle_public : Client → PublicEndpoint → M Response
  unfolding handle_registration_status handle_register handle_login
  handle_public c get_registration = handle_registration_status p sv
  handle_public c (post_register body) = handle_register p sv body
  handle_public c (post_login body) = handle_login p sv c body

  unfoldable pub handle_user : Client → UserEndpoint → User → M Response
  unfolding require_csrf require_admin
  handle_user c post_logout u = handle_logout p sv (cookie_value c.session) u
  handle_user c get_me u = handle_me p sv u
  handle_user c get_files u = handle_list p sv.files u
  handle_user c (post_password body) u = require_csrf p sv c (handle_change_password p sv u body)
  handle_user c (post_files body) u = require_csrf p sv c (handle_upload p sv.files u body)
  handle_user c (get_file_info value) u = handle_stat p sv.files u value
  handle_user c (get_content value) u = handle_download p sv.files u value
  handle_user c (delete_one_file value) u = require_csrf p sv c (handle_delete p sv.files u value)
  handle_user c (patch_file value body) u =
      require_csrf p sv c (handle_rename p sv.files u value body)
  handle_user c (put_share value body) u =
      require_csrf p sv c (handle_share p sv.files u value body)
  handle_user c (delete_share value username) u =
      require_csrf p sv c (handle_revoke p sv.files u value username)
  handle_user c get_users u = require_admin p sv c u (handle_admin_users p)
  handle_user c get_invites u = require_admin p sv c u (handle_admin_invites p u)
  handle_user c (get_audit limit before) u =
      require_admin p sv c u (handle_admin_audit p limit before)
  handle_user c (post_invite body) u =
      require_admin p sv c u (require_csrf p sv c (handle_admin_create_invite p u body))
  handle_user c (delete_invite value) u =
      require_admin p sv c u (require_csrf p sv c (handle_admin_revoke_invite p u value))

  unfoldable pub handler : Client → Endpoint → M Response
  unfolding handle_public require_auth handle_user
  handler c (for_all e) = handle_public c e
  handler c (for_users e) = require_auth p sv c (handle_user c e)
