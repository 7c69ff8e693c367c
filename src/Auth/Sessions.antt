-- ===== src/Auth/Sessions.antt =====
-- internal/auth/token.go, and the sessions and the throttling of internal/auth/service.go. Times are
-- in nanoseconds, and a comparison with `now() - d` is written without the subtraction.
pub mod Opened
use securevault.Auth.Base64.{url_char, encode_by}
use securevault.Auth.Policy.{effective_policy, RegistrationPolicy, mode_open}
use securevault.Files.Node.{event}
use securevault.Audit.{result_ok, record_event}
use securevault.Database.Table.{delete, find, update}
use securevault.Storage.Crypto.{random_bytes}
use securevault.Auth.User.{User}
use securevault.Database.Schema.{named, SessionRow, Db}
use securevault.Effect.{pure, or_raise, query, clock, raise_if, run, Statement, M, ◌>>=◌, ◌>>◌}
use securevault.Base.{
  ltb, leb, if◌then◌else◌, is_some, ◌==◌, nat_eq, string_eq, Bytes, bytes_eq, keep, count, Fault,
  insert, unique_violation, broken, throttled, session_invalid, pg, ok, err, ℕ, ◌+◌, ◌-◌, ◌*◌, ◌<◌,
  String, code, Bool, not, ◌&&◌, ◌||◌, Option, none, some, [], ◌∷◌,
}
use securevault.Platform.{Platform}

abbrev pub minute : ℕ
minute = 60000000000

abbrev pub throttle_window : ℕ
throttle_window = 15 * minute

abbrev pub throttle_user_max : ℕ
throttle_user_max = 10

abbrev pub throttle_addr_max : ℕ
throttle_addr_max = 30

pub record Service : Type 0 where
  pub session_idle_ttl : ℕ
  pub session_absolute_ttl : ℕ
  pub policy : RegistrationPolicy

abbrev pub new_service : Service
new_service = record {
  session_idle_ttl = 30 * minute;
  session_absolute_ttl = 240 * minute;
  policy = record { mode = mode_open; max_users = 0 };
}

unfoldable pub set_registration_policy : RegistrationPolicy → Service → Service
unfolding effective_policy
set_registration_policy q sv = record sv { policy = effective_policy q }

abbrev pub token_bytes : ℕ
token_bytes = 32

-- INSERT INTO sessions …: the user exists, and the hash is new.
unfoldable pub insert_session : SessionRow → Statement (Unit {0})
insert_session s d =
    if is_some (find (λ r. r.token_hash) s.token_hash d.sessions)
    then err (pg unique_violation)
    else if is_some (find (λ u. u.id) s.user_id d.users)
    then ok (tt, record d { sessions = s ∷ d.sessions })
    else err (pg broken)

-- The WHERE clause on the two lifetimes.
abbrev pub is_live : Service → ℕ → SessionRow → Bool
is_live sv now s = ltb now s.expires_at && ltb now (s.last_seen_at + sv.session_idle_ttl)

abbrev pub live_user : Service → Bytes → ℕ → Db → Option User
live_user sv hash now d = elim (find (λ r. r.token_hash) hash d.sessions) [
  | none ↦ none
  | some s ↦
      if is_live sv now s
      then elim (find (λ u. u.id) s.user_id d.users) [
        | none ↦ none
        | some u ↦ some (record { id = u.id; username = u.username; role = u.role })
      ]
      else none
]

-- UPDATE sessions … SET last_seen_at = now() … RETURNING u.id, u.username, u.role
unfoldable pub touch_session : Service → Bytes → ℕ → Statement (Option User)
touch_session sv hash now d = elim (live_user sv hash now d) [
  | none ↦ ok (none, d)
  | some u ↦ ok (
    some u,
    record d {
      sessions = update (λ r. r.token_hash) hash (λ r. record r { last_seen_at = now }) d.sessions;
    },
  )
]

unfoldable pub delete_session : Bytes → Statement (Unit {0})
delete_session hash d = ok (tt, record d { sessions = delete (λ r. r.token_hash) hash d.sessions })

-- DELETE FROM login_failures WHERE attempted_at < now() - $1
unfoldable pub prune_failures : ℕ → Statement (Unit {0})
prune_failures now d = ok (
  tt,
  record d {
    login_failures = keep (λ f. not (ltb (f.attempted_at + throttle_window) now)) d.login_failures;
  },
)

-- count(*) FILTER (WHERE key = $1) … WHERE attempted_at >= now() - $3
unfoldable pub recent_failures : String → ℕ → Db → ℕ
recent_failures key now d =
    count (λ f. f.key == key && leb now (f.attempted_at + throttle_window)) d.login_failures

module _ (p : Platform) where
  abbrev pub hash_token : Bytes → Bytes
  hash_token token = p.sha256 token

  unfoldable pub new_session_token : M (Bytes × Bytes)
  unfolding encode_by
  new_session_token = do
    raw ← random_bytes p token_bytes
    let token = encode_by url_char raw
    pure (token, hash_token token)

  unfoldable pub create_session : Service → String → M Bytes
  unfolding new_session_token
  create_session sv user_id = do
    (token, hash) ← new_session_token
    now ← clock p
    run p (
        insert_session (record {
          user_id = user_id;
          token_hash = hash;
          expires_at = now + sv.session_absolute_ttl;
          last_seen_at = now;
        }))
    pure token

  unfoldable pub validate_session : Service → Bytes → M User
  validate_session sv token = do
    raise_if (token == []) session_invalid
    now ← clock p
    found ← run p (touch_session sv (hash_token token) now)
    or_raise found session_invalid

  unfoldable pub logout : Bytes → User → M (Unit {0})
  logout token u = do
    run p (delete_session (hash_token token))
    record_event p (event u "auth.logout" (named u.username) result_ok "")

  unfoldable pub is_throttled : String → String → M Bool
  is_throttled user_key addr_key = do
    cut ← clock p
    run p (prune_failures cut)
    now ← clock p
    (user_fails, addr_fails) ←
        query p (λ d. (recent_failures user_key now d, recent_failures addr_key now d))
    pure (leb throttle_user_max user_fails || leb throttle_addr_max addr_fails)
