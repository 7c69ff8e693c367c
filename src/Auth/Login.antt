-- ===== src/Auth/Login.antt =====
-- internal/auth/service.go: `Login`, `loginFailed` and `ChangePassword`.
pub mod LoggedIn
pub mod Throttled
pub mod Single
pub mod Refused
pub mod Changed
use securevault.Auth.Registration.{anonymous, breaks_policy}
use securevault.Files.Node.{event}
use securevault.Audit.{result_denied, result_ok, record_event}
use securevault.Auth.User.{User}
use securevault.Database.Table.{update, delete}
use securevault.Database.Schema.{named, UserRow, Db}
use securevault.Auth.Sessions.{Service, create_session, is_throttled}
use securevault.Auth.Password.{verify_password, hash_password}
use Prim.Native.String.{String, ◌++◌ as concat}
use securevault.Database.Table.{find}
use securevault.Base.{
  if◌then◌else◌, nat_eq, string_eq, Bytes, bytes_eq, count, Fault, insert, invalid_credentials,
  throttled, password_policy, internal, ok, ℕ, ◌-◌, Option, none, some, ◌∷◌,
}
use securevault.Platform.{Platform}
use securevault.Effect.{
  pure, raise, or_raise, query, raise_if, lift, run, clock, M, Statement, ◌>>=◌, ◌>>◌,
}

abbrev pub user_key : String → String
user_key username = concat "u:" username

abbrev pub addr_key : String → String
addr_key addr = concat "ip:" addr

-- INSERT INTO login_failures (key) VALUES ($1), ($2)
unfoldable pub insert_failures : String → String → ℕ → Statement (Unit {0})
insert_failures a b now d = ok (
  tt,
  record d {
    login_failures =
        record { key = b; attempted_at = now }
        ∷ record { key = a; attempted_at = now }
        ∷ d.login_failures;
  },
)

-- DELETE FROM login_failures WHERE key = $1
unfoldable pub clear_failures : String → Statement (Unit {0})
clear_failures key d =
    ok (tt, record d { login_failures = delete (λ f. f.key) key d.login_failures })

-- UPDATE users SET password_hash = $1, password_changed_at = now() WHERE id = $2
unfoldable pub update_password : Bytes → String → ℕ → Statement (Unit {0})
update_password hash id now d = ok (
  tt,
  record d {
    users =
        update (λ u. u.id) id (λ u. record u { password_hash = hash; password_changed_at = now })
          d.users;
  },
)

-- DELETE FROM sessions WHERE user_id = $1
unfoldable pub delete_sessions : String → Statement (Unit {0})
delete_sessions id d = ok (tt, record d { sessions = delete (λ s. s.user_id) id d.sessions })

abbrev pub account_of : Db → String → Option UserRow
account_of d name = find (λ u. u.username) name d.users

module _ (p : Platform) where
  -- Every way to fail by the credentials is this one.
  unfoldable pub login_failed : {A : Type 0} → String → String → String → M A
  login_failed username addr reason = do
    now ← clock p
    run p (insert_failures (user_key username) (addr_key addr) now)
    record_event p (event (anonymous username) "auth.login" (named username) result_denied reason)
    raise invalid_credentials

  -- From the verified password on.
  unfoldable pub open_session : Service → String → User → M (Bytes × User)
  unfolding create_session
  open_session sv username u = do
    run p (clear_failures (user_key username))
    token ← create_session p sv u.id
    record_event p (event u "auth.login" (named username) result_ok "")
    pure (token, u)

  -- With the account that was looked up.
  unfoldable pub log_in : Service → String → Bytes → String → Option UserRow → M (Bytes × User)
  unfolding login_failed open_session verify_password
  log_in sv username password addr none = login_failed username addr "unknown_user"
  log_in sv username password addr (some row) = do
    matches ← lift (verify_password p password row.password_hash)
    if matches
        then open_session sv username (record { id = row.id; username = username; role = row.role })
        else login_failed username addr "wrong_password"

  unfoldable pub login : Service → String → Bytes → String → M (Bytes × User)
  unfolding log_in is_throttled
  login sv username password addr = do
    throttled_now ← is_throttled p (user_key username) (addr_key addr)
    if throttled_now
        then (record_event p
              (event (anonymous username) "auth.login" (named username) result_denied "throttled")
            >> raise throttled)
        else (query p (λ d. account_of d username) >>= log_in sv username password addr)

  -- The statements after the check of the current password; they are no transaction.
  unfoldable pub replace_password : Service → User → Bytes → M Bytes
  unfolding hash_password create_session
  replace_password sv u next = do
    hash ← hash_password p next
    now ← clock p
    run p (update_password hash u.id now)
    run p (delete_sessions u.id)
    token ← create_session p sv u.id
    record_event p (event u "auth.password_change" (named u.username) result_ok "")
    pure token

  unfoldable pub change_password : Service → User → Bytes → Bytes → M Bytes
  unfolding replace_password verify_password
  change_password sv u current next = do
    raise_if (breaks_policy next) password_policy
    found ← query p (λ d. find (λ r. r.id) u.id d.users)
    row ← or_raise found internal
    matches ← lift (verify_password p current row.password_hash)
    if matches
        then replace_password sv u next
        else (record_event p
              (event u "auth.password_change" (named u.username) result_denied "wrong_password")
            >> raise invalid_credentials)
