-- ===== src/Auth/Accepted.antt =====
-- A live session is accepted.
use securevault.Database.Table.{find}
use securevault.Auth.Validity.{Live}
use securevault.Platform.Laws.{NoFault}
use securevault.Database.Schema.{UserRow}
use securevault.Auth.Sessions.{hash_token, Service, touch_session, validate_session}
use securevault.Effect.{World, raise_if, or_raise, write_back, call, run, ◌>>=◌}
use securevault.Base.{eq_iff, nat_eq, string_eq, Bytes, bytes_eq, ok, ◌≡◌, ◌≢◌, some, [], arith}
use securevault.Platform.{Platform}

-- Where no call fails, a token that is not empty and whose session is within both of its lifetimes
-- and belongs to an account is accepted, as that account.
pub validate_session-accepts :
    (p : Platform) (sv : Service) (token : Bytes) (w : World) (row : UserRow)
    → NoFault p
    → token ≢ []
    → (l : Live sv (hash_token p token) (p.now w.step) w.db)
    → find (λ u. u.id) l.session.user_id w.db.users ≡ some row
    → (validate_session p sv token w).0
      ≡ ok (record { id = row.id; username = row.username; role = row.role })
unfolding validate_session touch_session run call write_back or_raise raise_if ◌>>=◌
validate_session-accepts p sv token w row works nonempty l user =
    ground (arith, works w.step, l.found, l.unexpired, l.active, eq_iff token [])
