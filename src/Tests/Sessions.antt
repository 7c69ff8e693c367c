-- ===== src/Tests/Sessions.antt =====
-- A request with the token of a live session.
use securevault.Database.Table.{find}
use securevault.Auth.Accepted.{validate_session-accepts}
use securevault.Tests.{user_row, alice, empty_db, start}
use securevault.Auth.Validity.{validate_session-Live, Live}
use securevault.Auth.Sessions.{hash_token, new_service, touch_session, validate_session}
use securevault.Base.{
  nat_eq, string_eq, Bytes, bytes_beq, bytes_eq, ok, ◌≡◌, refl, ◌≢◌, some, [], ◌∷◌, arith,
}
use securevault.Platform.Sample.{sample}
use securevault.Effect.{raise_if, or_raise, write_back, run, call, World, ◌>>=◌}

abbrev pub token : Bytes
token = 1 ∷ []

abbrev pub signed_in : World
signed_in = record start {
  db = record empty_db {
    sessions =
        record {
          user_id = "u1";
          token_hash = hash_token sample token;
          expires_at = 5000;
          last_seen_at = 900;
        }
        ∷ [];
  };
}

abbrev seen : World
seen = (validate_session sample new_service token signed_in).1

seen_eq : validate_session sample new_service token signed_in ≡ (ok alice, seen)
unfolding validate_session touch_session call run write_back or_raise raise_if ◌>>=◌ bytes_beq
seen_eq = refl

validate_session-Live_example :
    Live new_service (hash_token sample token) (sample.now signed_in.step) signed_in.db
validate_session-Live_example = validate_session-Live sample new_service token signed_in seen_eq

found_eq :
    find (λ r. r.token_hash) (hash_token sample token) signed_in.db.sessions
    ≡ some (record {
      user_id = "u1";
      token_hash = hash_token sample token;
      expires_at = 5000;
      last_seen_at = 900;
    })
unfolding bytes_beq
found_eq = refl

abbrev live : Live new_service (hash_token sample token) (sample.now signed_in.step) signed_in.db
live = record {
  session = record {
    user_id = "u1";
    token_hash = hash_token sample token;
    expires_at = 5000;
    last_seen_at = 900;
  };
  found = found_eq;
  unexpired = omega arith;
  active = omega arith;
}

validate_session-accepts_example :
    (validate_session sample new_service token signed_in).0
    ≡ ok (record { id = "u1"; username = "alice"; role = "user" })
validate_session-accepts_example =
    validate_session-accepts sample new_service token signed_in (user_row alice) (λ t. refl)
      nonempty live refl
  where
    nonempty : token ≢ []
    nonempty h = cc h
