-- ===== src/Api/Answered.antt =====
-- Every endpoint answers: no handler ends without a response.
use securevault.Audit.Laws.{record_event-Sure}
use securevault.Api.AdminHandlers.{
  query_number, handle_admin_revoke_invite, handle_admin_create_invite, handle_admin_audit,
  handle_admin_invites, handle_admin_users, issue, revoke_one, with_limits,
}
use securevault.Api.AuthHandlers.{
  handle_change_password, handle_login, handle_me, handle_register, handle_logout,
  handle_registration_status, with_session,
}
use securevault.Api.FileHandlers.{
  handle_revoke, handle_share, handle_rename, handle_delete, handle_download, handle_stat,
  handle_list, Multipart, Part, take_parts, handle_upload,
}
use securevault.Api.Guards.{require_csrf, require_admin, require_auth, Client, Server}
use securevault.Auth.User.{User}
use securevault.Api.Answer.{
  user_body, reply, Body, path_uuid, with_body, found_uuid, Response, with_uuid, answer,
}
use securevault.Files.Node.{Repo}
use securevault.Effect.RollsBack.{Sure-gets, Sure-bind, Sure-pure, Sure-attempt, Sure-if, Sure}
use securevault.Effect.{M}
use securevault.Api.Server.{
  UserEndpoint, PublicEndpoint, Endpoint, handle_public, handle_user, get_registration,
  post_register, post_login, post_logout, get_me, get_files, post_password, post_files,
  get_file_info, get_content, delete_one_file, patch_file, put_share, delete_share, get_users,
  get_invites, get_audit, post_invite, delete_invite, for_all, for_users, handler,
}
use securevault.Base.{
  nat_eq, string_eq, Bytes, bytes_eq, Error, ℤ, pos, negsuc, ℕ, String, Option, none, some, List,
  [], ◌∷◌,
}
use securevault.Platform.{Platform}

answer-Sure :
    {A : Type 0} (m : M A) (f : A → M Response) → ((a : A) → Sure (f a)) → Sure (answer m f)
unfolding answer
answer-Sure m f k = Sure-attempt m (reply f) k (λ e. Sure-pure _)

with_body-Sure :
    {A : Type 0} (o : Option A) (f : A → M Response) → ((a : A) → Sure (f a)) → Sure (with_body o f)
with_body-Sure none f k = Sure-pure _
with_body-Sure (some a) f k = k a

found_uuid-Sure :
    (o : Option String) (f : String → M Response)
    → ((id : String) → Sure (f id))
    → Sure (found_uuid o f)
found_uuid-Sure none f k = Sure-pure _
found_uuid-Sure (some id) f k = k id

with_uuid-Sure :
    (p : Platform) (value : String) (f : String → M Response)
    → ((id : String) → Sure (f id))
    → Sure (with_uuid p value f)
unfolding with_uuid
with_uuid-Sure p value f k = found_uuid-Sure (path_uuid p value) f k

module _ (p : Platform) (sv : Server) where
  with_session-Sure : (token : Bytes) (body : Body) → Sure (with_session p sv token body)
  unfolding with_session
  with_session-Sure token body = Sure-attempt _ _ (λ buf. Sure-pure _) (λ e. Sure-pure _)

  handle_public-Sure : (c : Client) (e : PublicEndpoint) → Sure (handle_public p sv c e)
  unfolding handle_public handle_registration_status handle_register handle_login
  handle_public-Sure c get_registration = answer-Sure _ _ λ st. Sure-pure _
  handle_public-Sure c (post_register body) =
      with_body-Sure body _ λ req. answer-Sure _ _ λ u. Sure-pure _
  handle_public-Sure c (post_login body) =
      with_body-Sure body _ λ req. answer-Sure _ _ λ x. with_session-Sure x.0 (user_body x.1)

  require_auth-Sure :
      (c : Client) (o : Option Bytes) (next : User → M Response)
      → ((u : User) → Sure (next u))
      → Sure (require_auth p sv (record c { session = o }) next)
  unfolding require_auth
  require_auth-Sure c none next k = Sure-pure _
  require_auth-Sure c (some token) next k = Sure-attempt _ _ k (λ e. Sure-pure _)

  require_csrf-Sure :
      (c : Client) (o : Option Bytes) (next : M Response)
      → Sure next
      → Sure (require_csrf p sv (record c { csrf = o }) next)
  unfolding require_csrf
  require_csrf-Sure c none next k = Sure-pure _
  require_csrf-Sure c (some value) next k =
      Sure-if _ _ _ (Sure-pure _) (Sure-if _ _ _ k (Sure-pure _))

  require_admin-Sure :
      (c : Client) (u : User) (next : M Response) → Sure next → Sure (require_admin p sv c u next)
  unfolding require_admin
  require_admin-Sure c u next k =
      Sure-if _ _ _ k (Sure-bind _ _ (record_event-Sure p _) λ _. Sure-pure _)

module _ (p : Platform) (r : Repo) where
  take_parts-Sure :
      (u : User) (last : Error) (parts : List Part) → Sure (take_parts p r u last parts)
  unfolding take_parts
  take_parts-Sure u last [] = Sure-pure _
  take_parts-Sure u last (part ∷ parts) =
      Sure-if _ _ _ (Sure-attempt _ _ (λ n. Sure-pure _) (λ e. Sure-pure _))
        (take_parts-Sure u last parts)

  handle_upload-Sure : (u : User) (body : Option Multipart) → Sure (handle_upload p r u body)
  unfolding handle_upload
  handle_upload-Sure u none = Sure-pure _
  handle_upload-Sure u (some m) = take_parts-Sure u m.last m.parts

module _ (p : Platform) where
  with_limits-Sure : (limit before : Option ℕ) → Sure (with_limits p limit before)
  with_limits-Sure none before = Sure-pure _
  with_limits-Sure (some limit) none = Sure-pure _
  with_limits-Sure (some limit) (some before) = answer-Sure _ _ λ page. Sure-pure _

  issue-Sure : (u : User) (note : Bytes) (hours : ℤ) → Sure (issue p u note hours)
  issue-Sure u note (negsuc n) = Sure-pure _
  issue-Sure u note (pos hours) =
      answer-Sure _ _ λ x. Sure-bind _ _ (Sure-gets _) λ now. Sure-pure _

  revoke_one-Sure : (u : User) (id : Option String) → Sure (revoke_one p u id)
  revoke_one-Sure u none = Sure-pure _
  revoke_one-Sure u (some id) = answer-Sure _ _ λ _. Sure-pure _

module _ (p : Platform) (sv : Server) where
  guarded : (c : Client) (m : M Response) → Sure m → Sure (require_csrf p sv c m)
  guarded c m k = require_csrf-Sure p sv c c.csrf m k

  handle_user-Sure : (c : Client) (e : UserEndpoint) (u : User) → Sure (handle_user p sv c e u)
  unfolding handle_user handle_logout handle_me handle_list handle_change_password handle_stat
      handle_download handle_delete handle_rename handle_share handle_revoke handle_admin_users
      handle_admin_invites handle_admin_audit handle_admin_create_invite handle_admin_revoke_invite
  handle_user-Sure c post_logout u = answer-Sure _ _ λ _. Sure-pure _
  handle_user-Sure c get_me u = Sure-pure _
  handle_user-Sure c get_files u = answer-Sure _ _ λ nodes. Sure-pure _
  handle_user-Sure c (post_password body) u =
      guarded c _
        (with_body-Sure body _ λ req. answer-Sure _ _ λ token. with_session-Sure p sv token _)
  handle_user-Sure c (post_files body) u = guarded c _ (handle_upload-Sure p sv.files u body)
  handle_user-Sure c (get_file_info value) u =
      with_uuid-Sure p value _ λ id. answer-Sure _ _ λ x. Sure-pure _
  handle_user-Sure c (get_content value) u =
      with_uuid-Sure p value _ λ id. answer-Sure _ _ λ x. Sure-pure _
  handle_user-Sure c (delete_one_file value) u =
      guarded c _ (with_uuid-Sure p value _ λ id. answer-Sure _ _ λ x. Sure-pure _)
  handle_user-Sure c (patch_file value body) u = guarded c _ (
      with_uuid-Sure p value _ λ id.
        with_body-Sure body _
          λ name. Sure-if _ _ _ (Sure-pure _) (answer-Sure _ _ λ node. Sure-pure _))
  handle_user-Sure c (put_share value body) u =
      guarded c _
        (with_uuid-Sure p value _ λ id. with_body-Sure body _ λ x. answer-Sure _ _ λ _. Sure-pure _)
  handle_user-Sure c (delete_share value username) u = guarded c _ (
      with_uuid-Sure p value _ λ id. Sure-if _ _ _ (Sure-pure _) (answer-Sure _ _ λ _. Sure-pure _))
  handle_user-Sure c get_users u =
      require_admin-Sure p sv c u _ (answer-Sure _ _ λ users. Sure-pure _)
  handle_user-Sure c get_invites u =
      require_admin-Sure p sv c u _
        (answer-Sure _ _ λ invites. Sure-bind _ _ (Sure-gets _) λ now. Sure-pure _)
  handle_user-Sure c (get_audit limit before) u = require_admin-Sure p sv c u _ (
      with_limits-Sure p (query_number limit 50 1 1000)
        (query_number before 0 1 9223372036854775807))
  handle_user-Sure c (post_invite body) u =
      require_admin-Sure p sv c u _
        (guarded c _ (with_body-Sure body _ λ req. issue-Sure p u req.note req.ttl_hours))
  handle_user-Sure c (delete_invite value) u =
      require_admin-Sure p sv c u _ (guarded c _ (revoke_one-Sure p u (path_uuid p value)))

  pub handler-Sure : (c : Client) (e : Endpoint) → Sure (handler p sv c e)
  unfolding handler
  handler-Sure c (for_all e) = handle_public-Sure p sv c e
  handler-Sure c (for_users e) = require_auth-Sure p sv c c.session _ (handle_user-Sure c e)
