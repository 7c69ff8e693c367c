-- ===== src/Auth/Validity.antt =====
-- Which sessions `validate_session` accepts.
use securevault.Effect.Runs.{run_ok}
use securevault.Effect.Bind.{or_raise_ok, gets_ok, bind_ok, pass_ok}
use securevault.Database.Table.{find}
use securevault.Auth.User.{User}
use securevault.Database.Schema.{SessionRow, UserRow, Db}
use securevault.Auth.Sessions.{hash_token, live_user, validate_session, touch_session, Service}
use mathlib.Core.Path.{subst}
use securevault.Effect.{World}
use securevault.Base.{
  Option-cases, nat_eq, string_eq, Bytes, bytes_eq, session_invalid, ok, ℕ, ◌+◌, ◌<◌, ◌≡◌, ap, inl,
  inr, some, arith,
}
use securevault.Platform.{Platform}

-- A session that is within both of its lifetimes.
pub record Live (sv : Service) (hash : Bytes) (now : ℕ) (d : Db) : Type 0 where
  pub session : SessionRow
  pub found : find (λ r. r.token_hash) hash d.sessions ≡ some session
  pub unexpired : now < session.expires_at
  pub active : now < session.last_seen_at + sv.session_idle_ttl

-- A principal that is the account of a live session.
pub record IsPrincipal (sv : Service) (hash : Bytes) (now : ℕ) (d : Db) (u : User) : Type 0 where
  pub live : Live sv hash now d
  pub row : UserRow
  pub account : find (λ a. a.id) live.session.user_id d.users ≡ some row
  pub id : u.id ≡ row.id
  pub username : u.username ≡ row.username
  pub role : u.role ≡ row.role

live_user-IsPrincipal :
    (sv : Service) (hash : Bytes) (now : ℕ) (d : Db) (u : User)
    → live_user sv hash now d ≡ some u
    → IsPrincipal sv hash now d u
live_user-IsPrincipal sv hash now d u h =
    elim (Option-cases (find (λ r. r.token_hash) hash d.sessions)) [
      | inl absent ↦ absurd (ground arith)
      | inr (s, found) ↦ elim (Option-cases (find (λ a. a.id) s.user_id d.users)) [
        | inl absent ↦ absurd (ground arith)
        | inr (row, account) ↦ record {
          live = record {
            session = s;
            found = found;
            unexpired = ground arith;
            active = ground arith;
          };
          row = row;
          account = account;
          id = ground arith;
          username = ground arith;
          role = ground arith;
        }
      ]
    ]

touch_session-Live :
    (sv : Service) (hash : Bytes) (now : ℕ) (d : Db) (u : User) {d' : Db}
    → touch_session sv hash now d ≡ ok (some u, d')
    → live_user sv hash now d ≡ some u
unfolding touch_session
touch_session-Live sv hash now d u h = ground arith

pub validate_session-IsPrincipal :
    (p : Platform) (sv : Service) (token : Bytes) (w : World) {u : User} {w' : World}
    → validate_session p sv token w ≡ (ok u, w')
    → IsPrincipal sv (hash_token p token) (p.now w.step) w.db u
unfolding validate_session
validate_session-IsPrincipal p sv token w {u} {w'} h = pass_ok _ _ _ w h λ _ h1.
    bind_ok _ _ w h1 λ now w1 read h2. bind_ok _ _ w1 h2 λ found w2 ran h3.
      let (now_eq, same) = gets_ok _ w read in
      let s = run_ok p _ w1 ran in
      let did : touch_session sv (hash_token p token) now w1.db ≡ ok (some u, w2.db) =
        rw (← (or_raise_ok found session_invalid w2 h3).0) s.did in
      let live =
        live_user-IsPrincipal sv (hash_token p token) now w1.db u
          (touch_session-Live sv (hash_token p token) now w1.db u did) in
      subst (λ d. IsPrincipal sv (hash_token p token) (p.now w.step) d u)
        (ap (λ (w : World). w.db) same)
        (subst (λ t. IsPrincipal sv (hash_token p token) t w1.db u) now_eq live)

-- A token that is accepted belongs to a row of the sessions whose absolute deadline has not passed
-- and whose last request is less than the idle time ago.
pub validate_session-Live :
    (p : Platform) (sv : Service) (token : Bytes) (w : World) {u : User} {w' : World}
    → validate_session p sv token w ≡ (ok u, w')
    → Live sv (hash_token p token) (p.now w.step) w.db
validate_session-Live p sv token w h = (validate_session-IsPrincipal p sv token w h).live
