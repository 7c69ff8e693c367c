-- ===== src/Api/AuthHandlers.antt =====
-- internal/api/handlers_auth.go.
use securevault.Auth.Base64.{encode_by}
use securevault.Storage.Crypto.{random_bytes}
use securevault.Api.Answer.{
  write_service_error, registration_body, status_body, write_json, user_body, with_body, Response,
  Body, answer,
}
use securevault.Auth.User.{User}
use securevault.Auth.Sessions.{logout}
use securevault.Auth.Registration.{registration_status, register}
use securevault.Auth.Login.{change_password, login}
use securevault.Api.Guards.{
  client_addr, new_csrf_cookie, new_session_cookie, Client, cleared_cookies, Server,
}
use securevault.Effect.{◌>>=◌}
use securevault.Effect.{attempt, pure, M}
use securevault.Base.{nat_eq, string_eq, Bytes, bytes_eq, Result, ok, err, String, Option, [], ◌∷◌}
use securevault.Platform.{Platform}

pub record Credentials : Type 0 where
  pub username : String
  pub password : Bytes

pub record RegisterRequest : Type 0 where
  pub username : String
  pub password : Bytes
  pub invite_code : Bytes

pub record PasswordRequest : Type 0 where
  pub current_password : Bytes
  pub new_password : Bytes

module _ (p : Platform) (sv : Server) where
  -- setSessionCookies and the answer: where no CSRF token can be drawn, the session cookie is
  -- already set.
  unfoldable pub with_session : Bytes → Body → M Response
  unfolding random_bytes encode_by write_service_error
  with_session token body = attempt (random_bytes p 32) >>= finish
    where
      finish : Result Bytes → M Response
      finish (ok buf) = pure (record {
        status = 200;
        body = body;
        cookies = new_session_cookie p sv token ∷ new_csrf_cookie p sv buf ∷ [];
      })
      finish (err e) =
          pure (record (write_service_error e) { cookies = new_session_cookie p sv token ∷ [] })

  unfoldable pub handle_register : Option RegisterRequest → M Response
  unfolding register answer
  handle_register body = with_body body λ req.
      answer (register p sv.auth req.username req.password req.invite_code)
        λ u. pure (write_json 201 (user_body u))

  unfoldable pub handle_registration_status : M Response
  unfolding registration_status answer
  handle_registration_status =
      answer (registration_status p sv.auth) λ st. pure (write_json 200 (registration_body st))

  unfoldable pub handle_login : Client → Option Credentials → M Response
  unfolding login with_session
  handle_login c body = with_body body λ req.
      answer (login p sv.auth req.username req.password (client_addr p c))
        λ (token, u). with_session token (user_body u)

  -- The session cookie is there, since requireAuth has read it.
  unfoldable pub handle_logout : Bytes → User → M Response
  unfolding logout cleared_cookies answer
  handle_logout token u = answer (logout p token u) λ _.
      pure (record { status = 200; body = status_body "logged out"; cookies = cleared_cookies sv })

  unfoldable pub handle_me : User → M Response
  handle_me u = pure (write_json 200 (user_body u))

  unfoldable pub handle_change_password : User → Option PasswordRequest → M Response
  unfolding change_password with_session
  handle_change_password u body = with_body body λ req.
      answer (change_password p sv.auth u req.current_password req.new_password)
        λ token. with_session token (status_body "password changed")
