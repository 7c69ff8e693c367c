-- ===== src/Tests/Throttle.antt =====
-- Failed logins and issued invites, run.
use securevault.Text.{decode_rune, trim_space}
use securevault.Tests.{start}
use securevault.Audit.{record_event}
use securevault.Auth.Issued.{create_invite_ok, Issued}
use securevault.Storage.Crypto.{random_bytes}
use securevault.Auth.User.{is_admin, User}
use securevault.Auth.Invites.{insert_invite, invite_ttl, Invite, create_invite}
use securevault.Auth.Codes.{encode_base32}
use securevault.Effect.{
  raise_if, or_raise, raise, pure, write_back, call, run, os_call, World, ◌>>=◌,
}
use securevault.Base.{
  nat_eq, string_eq, Bytes, bytes_beq, bytes_eq, Result, codes, ok, pos, ◌≡◌, refl, true, none,
  some,
}
use securevault.Platform.Sample.{sample}

abbrev root : User
root = record { id = "u1"; username = "alice"; role = "admin" }

abbrev invite_run : Result (Bytes × Invite) × World
invite_run = create_invite sample (some root) (codes " for carol ") (pos 3600000000000) start

abbrev issued : Invite
issued = record {
  id = "id1";
  note = codes "for carol";
  created_by = "alice";
  created_at = 1001;
  expires_at = 3600000001001;
  used_by = "";
  used_at = none;
  revoked_at = none;
}

invite_eq :
    create_invite sample (some root) (codes " for carol ") (pos 3600000000000) start
    ≡ (ok (encode_base32 (sample.random 0 16), issued), invite_run.1)
unfolding create_invite invite_ttl is_admin random_bytes os_call encode_base32 trim_space
    decode_rune insert_invite record_event run call write_back pure raise or_raise raise_if ◌>>=◌
    bytes_beq
invite_eq = refl

create_invite_ok_example :
    (admin : User) × (some root ≡ some admin)
    × (is_admin admin ≡ true)
    × Issued sample admin start.db (encode_base32 (sample.random 0 16)) issued invite_run.1.db
create_invite_ok_example =
    create_invite_ok sample (some root) (codes " for carol ") (pos 3600000000000) start invite_eq
