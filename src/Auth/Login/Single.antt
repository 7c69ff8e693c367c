-- ===== src/Auth/Login/Single.antt =====
-- The sessions of a user after a change of the password.
use securevault.Auth.Login.Changed.{change_password_ok}
use securevault.Database.Table.{count_of-delete, find, count_of}
use securevault.Auth.Login.{change_password}
use securevault.Platform.Laws.{IsPasswordLawful}
use securevault.Effect.{World}
use securevault.Auth.User.{User}
use securevault.Auth.Sessions.{hash_token, Service}
use securevault.Base.{is_some, eq_refl, nat_eq, string_eq, Bytes, bytes_eq, ok, ◌≡◌, refl, true}
use securevault.Platform.{Platform}

-- Under the same laws, after a change of the password that succeeds the user has exactly one
-- session, and there is a session for the token that is returned.
pub change_password-single :
    (p : Platform) (sv : Service) (u : User) (current next : Bytes) (w : World) {token : Bytes}
    {w' : World}
    → IsPasswordLawful p
    → change_password p sv u current next w ≡ (ok token, w')
    → (count_of (λ s. s.user_id) u.id w'.db.sessions ≡ 1)
      × (is_some (find (λ s. s.token_hash) (hash_token p token) w'.db.sessions) ≡ true)
change_password-single p sv u current next w law h =
    let (_, c) = change_password_ok p sv u current next w law h in
    let o = c.opened in
    (
      rw (o.tables, o.owner, eq_refl u.id)
          (rw (count_of-delete (λ s. s.user_id) u.id u.id w.db.sessions, eq_refl u.id) refl),
      rw (o.tables, o.hash, eq_refl (hash_token p _)) refl,
    )
