-- ===== src/Api/Answer.antt =====
-- Responses, and what internal/api/server.go writes for the errors of the layers below.
use securevault.Auth.Invites.{Invite}
use securevault.Files.Node.{Grant, Node}
use securevault.Auth.Policy.{RegistrationStatus}
use securevault.Text.{split}
use securevault.Auth.User.{User}
use securevault.Database.Schema.{Target}
use securevault.Effect.{attempt, pure, M, ◌>>=◌}
use securevault.Base.{
  leb, if◌then◌else◌, ◌==◌, nat_eq, string_eq, Bytes, bytes_eq, length, any, Error, Result, codes,
  no_object, corrupt, too_large, not_found, integrity, validation, invalid_credentials, throttled,
  username_taken, session_invalid, password_policy, username_policy, registration_closed,
  invite_required, invite_invalid, user_limit_reached, invite_not_found, invite_policy,
  admin_required, max_bytes, unexpected_eof, pg, internal, ok, err, ℕ, String, Bool, true, false,
  not, ◌&&◌, ◌||◌, Option, none, some, List, [], ◌∷◌,
}
use securevault.Platform.{Platform}

-- http.Cookie, of which Path and SameSite are the same in each.
pub record Cookie : Type 0 where
  pub name : String
  pub value : Bytes
  pub http_only : Bool
  pub secure : Bool
  -- Max-Age in seconds; `none` deletes the cookie.
  pub max_age : Option ℕ

abbrev pub session_cookie : String
session_cookie = "sv_session"

abbrev pub csrf_cookie : String
csrf_cookie = "sv_csrf"

-- What the answers show of an account, and of an audit event.
pub record UserInfo : Type 0 where
  pub id : String
  pub username : String
  pub role : String
  pub created_at : ℕ

pub record EventInfo : Type 0 where
  pub id : ℕ
  pub at : ℕ
  pub actor : String
  pub action : String
  pub target : Target
  pub result : String
  pub reason : String
  pub request_id : String

pub data Body : Type 0 where
  error_body status_body : String → Body
  -- err.Error(), of an error that wraps this one
  error_text : Error → Body
  user_body : User → Body
  registration_body : RegistrationStatus → Body
  nodes_body : List Node → Body
  node_body : Node → Body
  stat_body : Node → List Grant → Body
  content_body : Node → Bytes → Body
  users_body : List UserInfo → Body
  page_body : List EventInfo → Option ℕ → Body
  invites_body : List (Invite × String) → Body
  invite_body : Bytes → Invite × String → Body
  -- index.html, and the file that http.FileServerFS serves for a path
  index_body asset_body : Bytes → Body

pub record Response : Type 0 where
  pub status : ℕ
  pub body : Body
  pub cookies : List Cookie

abbrev pub write_json : ℕ → Body → Response
write_json status body = record { status = status; body = body; cookies = [] }

abbrev pub write_error : ℕ → String → Response
write_error status message = write_json status (error_body message)

-- The status of an error, and whether its own text is written.
abbrev pub status_of_error : Error → ℕ × Bool
status_of_error invalid_credentials = (401, true)
status_of_error throttled = (429, true)
status_of_error session_invalid = (401, true)
status_of_error username_taken = (409, true)
status_of_error username_policy = (400, true)
status_of_error password_policy = (400, true)
status_of_error invite_policy = (400, true)
status_of_error registration_closed = (403, true)
status_of_error invite_required = (403, true)
status_of_error invite_invalid = (403, true)
status_of_error user_limit_reached = (403, true)
status_of_error invite_not_found = (404, true)
status_of_error admin_required = (404, false)
status_of_error validation = (400, true)
status_of_error not_found = (404, true)
status_of_error too_large = (413, false)
status_of_error integrity = (500, true)
status_of_error no_object = (500, false)
status_of_error corrupt = (500, false)
status_of_error max_bytes = (500, false)
status_of_error unexpected_eof = (500, false)
status_of_error (pg f) = (500, false)
status_of_error internal = (500, false)

-- The texts that stand in place of an error's own.
abbrev pub replacement : ℕ → String
replacement status =
    if status == 404
    then "not found"
    else if status == 413
    then "file exceeds the upload size limit"
    else "internal error"

unfoldable pub write_service_error : Error → Response
write_service_error e =
    let (status, own) = status_of_error e in
    if own then write_json status (error_text e) else write_error status (replacement status)

abbrev pub reply : {A : Type 0} → (A → M Response) → Result A → M Response
reply f (ok a) = f a
reply f (err e) = pure (write_service_error e)

-- A call of a layer below: its value is answered by the handler, and its error by its status.
unfoldable pub answer : {A : Type 0} → M A → (A → M Response) → M Response
unfolding write_service_error
answer m f = attempt m >>= reply f

abbrev pub is_hex_run : ℕ → Bytes → Bool
is_hex_run n s =
    length s == n
    && not (any (λ c. not ((leb b'0' c && leb c b'9') || (leb b'a' c && leb c b'f'))) s)

abbrev pub are_hex_runs : List ℕ → List Bytes → Bool
are_hex_runs [] [] = true
are_hex_runs (n ∷ ns) (s ∷ ss) = is_hex_run n s && are_hex_runs ns ss
are_hex_runs _ _ = false

-- uuidRe.MatchString
unfoldable pub is_uuid : String → Bool
unfolding split
is_uuid id = are_hex_runs (8 ∷ 4 ∷ 4 ∷ 4 ∷ 12 ∷ []) (split b'-' (codes id))

-- pathUUID, on the value of the route parameter.
unfoldable pub path_uuid : Platform → String → Option String
unfolding is_uuid
path_uuid p value = let id = p.to_lower value in if is_uuid id then some id else none

-- The guard `if !ok { 404 }` of the handlers of one file.
abbrev pub found_uuid : Option String → (String → M Response) → M Response
found_uuid none f = pure (write_json 404 (error_text not_found))
found_uuid (some id) f = f id

unfoldable pub with_uuid : Platform → String → (String → M Response) → M Response
unfolding path_uuid
with_uuid p value f = found_uuid (path_uuid p value) f

-- The guard of a body that decodeJSON refuses.
abbrev pub with_body : {A : Type 0} → Option A → (A → M Response) → M Response
with_body none f = pure (write_error 400 "malformed request body")
with_body (some a) f = f a
