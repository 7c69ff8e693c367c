-- ===== src/Api/Guards.antt =====
-- internal/api/middleware.go, and the cookies of internal/api/server.go.
use securevault.Database.Schema.{Target, named}
use securevault.Audit.{result_denied, record_event}
use securevault.Files.Node.{Repo}
use securevault.Auth.Base64.{url_char, encode_by}
use securevault.Auth.User.{User, is_admin}
use securevault.Auth.Sessions.{validate_session, Service}
use securevault.Api.Answer.{csrf_cookie, write_error, session_cookie, Response, Cookie}
use securevault.Effect.{attempt, pure, M, ◌>>=◌, ◌>>◌}
use securevault.Base.{
  if◌then◌else◌, ◌==◌, nat_eq, string_eq, Bytes, bytes_eq, Result, ok, err, ℕ, ◌*◌, String, Bool,
  true, false, not, Option, none, some, List, [], ◌∷◌,
}
use securevault.Platform.{Platform}

-- An fs.FS as spaHandler uses it: the paths that Open finds, the headers that http.FileServerFS sets
-- for one, and what ReadFile gives for index.html.
pub record Ui : Type 0 where
  pub opens : Bytes → Bool
  pub asset_headers : Bytes → List (String × Bytes)
  pub index : Option Bytes

-- `none` is the nil FS of a development build.
pub record Server : Type 0 where
  pub auth : Service
  pub files : Repo
  pub dev_mode : Bool
  pub max_upload : ℕ
  pub ui : Option Ui

abbrev pub new_server : Service → Repo → Bool → ℕ → Option Ui → Server
new_server auth files dev_mode max_upload ui = record {
  auth = auth;
  files = files;
  dev_mode = dev_mode;
  max_upload = max_upload;
  ui = ui;
}

-- What the handlers read of a request beside the endpoint: the cookies, a header, the address of
-- the peer, the path and the identifier that `withRequestID` gives it.
pub record Client : Type 0 where
  pub session : Option Bytes
  pub csrf : Option Bytes
  pub csrf_header : Bytes
  pub remote_addr : String
  pub path : String
  pub request_id : String

abbrev pub client_addr : Platform → Client → String
client_addr p c = elim (p.split_host_port c.remote_addr) [ none ↦ c.remote_addr | some host ↦ host ]

abbrev pub cookie_max_age : ℕ
cookie_max_age = 4 * 60 * 60

-- clearSessionCookies
unfoldable pub cleared_cookies : Server → List Cookie
cleared_cookies sv =
    record {
      name = session_cookie;
      value = [];
      http_only = true;
      secure = not sv.dev_mode;
      max_age = none;
    }
    ∷ record {
      name = csrf_cookie;
      value = [];
      http_only = false;
      secure = not sv.dev_mode;
      max_age = none;
    }
    ∷ []

module _ (p : Platform) (sv : Server) where
  abbrev pub new_session_cookie : Bytes → Cookie
  new_session_cookie token = record {
    name = session_cookie;
    value = token;
    http_only = true;
    secure = not sv.dev_mode;
    max_age = some cookie_max_age;
  }

  abbrev pub new_csrf_cookie : Bytes → Cookie
  new_csrf_cookie buf = record {
    name = csrf_cookie;
    value = encode_by url_char buf;
    http_only = false;
    secure = not sv.dev_mode;
    max_age = some cookie_max_age;
  }

  unfoldable pub require_auth : Client → (User → M Response) → M Response
  unfolding validate_session
  require_auth c next = with_cookie c.session
    where
      refused : Response
      refused = write_error 401 "authentication required"

      enter : Result User → M Response
      enter (ok u) = next u
      enter (err e) = pure refused

      with_cookie : Option Bytes → M Response
      with_cookie none = pure refused
      with_cookie (some token) = attempt (validate_session p sv.auth token) >>= enter

  unfoldable pub require_csrf : Client → M Response → M Response
  require_csrf c next = with_cookie c.csrf
    where
      with_cookie : Option Bytes → M Response
      with_cookie none = pure (write_error 403 "missing CSRF token")
      with_cookie (some value) =
          if value == []
          then pure (write_error 403 "missing CSRF token")
          else if value == c.csrf_header
          then next
          else pure (write_error 403 "invalid CSRF token")

  -- auditDenied
  abbrev pub audit_denied : Client → Option User → String → Target → M (Unit {0})
  audit_denied c u action target = record_event p record {
    actor_id = elim u [ none ↦ "" | some u ↦ u.id ];
    actor_name = elim u [ none ↦ "" | some u ↦ u.username ];
    action = action;
    target = target;
    result = result_denied;
    reason = "no_grant";
    request_id = c.request_id;
  }

  unfoldable pub require_admin : Client → User → M Response → M Response
  unfolding is_admin
  require_admin c u next =
      if is_admin u
      then next
      else (audit_denied c (some u) "admin.access" (named c.path)
          >> pure (write_error 404 "not found"))
