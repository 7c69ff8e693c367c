-- ===== src/Tests/Accounts.antt =====
-- Accounts, invites, logins and passwords, run.
use securevault.Text.{decode_rune, trim_space, upper_text}
use securevault.Auth.Registration.Registered.{register_ok, Registered}
use securevault.Auth.Codes.{normalize_invite_code}
use securevault.Auth.Registration.Once.{register-once}
use securevault.Auth.Policy.{mode_invite}
use securevault.Database.Schema.{InviteRow}
use securevault.Auth.Registration.Limits.{register_capped, register-eq_of_err}
use securevault.Audit.{record_event}
use securevault.Storage.Crypto.{random_bytes}
use securevault.Tests.{bob, empty_db, start}
use securevault.Auth.Password.{verify_password, hash_password}
use securevault.Auth.Sessions.{Service, new_service}
use securevault.Auth.Registration.{
  consume_invite, select_invite, admit_invited, is_username, insert_user, admit_by_mode,
  admit_registration, register_body, register,
}
use securevault.Auth.User.{User}
use securevault.Effect.{
  lift, raise_if, rescue, raise, pure, write_back, call, run, query, in_transaction, transaction,
  os_call, World, ◌>>=◌,
}
use securevault.Base.{
  nat_eq, string_eq, Bytes, bytes_beq, bytes_eq, length, Result, codes, username_policy, ok, err,
  ◌≤◌, ◌≡◌, refl, ◌≢◌, true, none, [], ◌∷◌, arith,
}
use securevault.Platform.Sample.{sample-IsPasswordLawful, sample}

abbrev password : Bytes
password = codes "correct horse"

abbrev register_run : Result User × World
register_run = register sample new_service "carol" password [] start

abbrev registered : World
registered = register_run.1

abbrev carol : User
carol = record { id = "id1"; username = "carol"; role = "user" }

register_eq : register sample new_service "carol" password [] start ≡ (ok carol, registered)
unfolding register hash_password random_bytes os_call transaction in_transaction register_body
    admit_registration admit_by_mode query run call write_back insert_user is_username record_event
    pure raise rescue raise_if lift ◌>>=◌ bytes_beq
register_eq = refl

register_ok_example :
    (hash : Bytes) × (is_username "carol" ≡ true)
    × ((8 ≤ length password) × (length password ≤ 128))
    × (verify_password sample password hash ≡ ok true)
    × Registered sample new_service.policy "carol" hash []
        (sample.now 1)
        start.db
        carol
        registered.db
register_ok_example =
    register_ok sample new_service "carol" password [] start sample-IsPasswordLawful register_eq

-- Three accounts at most, with a code.
abbrev by_invite : Service
by_invite = record new_service { policy = record { mode = mode_invite; max_users = 3 } }

abbrev invite : InviteRow
invite = record {
  id = "i1";
  code_hash = sample.sha256 (codes "ABCD");
  note = [];
  created_by = "u1";
  created_at = 0;
  expires_at = 9000;
  used_by = none;
  used_at = none;
  revoked_at = none;
}

abbrev with_invite : World
with_invite = record start { db = record empty_db { invites = invite ∷ [] } }

abbrev invited_run : Result User × World
invited_run = register sample by_invite "carol" password (codes "ab-cd") with_invite

invited_eq :
    register sample by_invite "carol" password (codes "ab-cd") with_invite
    ≡ (ok carol, invited_run.1)
unfolding register hash_password random_bytes os_call transaction in_transaction register_body
    admit_registration admit_by_mode admit_invited select_invite normalize_invite_code upper_text
    trim_space decode_rune consume_invite query run call write_back insert_user is_username
    record_event pure raise rescue raise_if lift ◌>>=◌ bytes_beq
invited_eq = refl

register-once_example :
    register sample by_invite "dave" password (codes "ABCD") invited_run.1 ≢ (ok bob, start)
register-once_example =
    register-once sample by_invite "carol" "dave" password password (codes "ab-cd") (codes "ABCD")
      with_invite invited_run.1 sample-IsPasswordLawful refl (omega arith) invited_eq refl same_code
      bob start
  where
    same_code :
        normalize_invite_code sample (codes "ABCD") ≡ normalize_invite_code sample (codes "ab-cd")
    same_code = unfold normalize_invite_code upper_text trim_space decode_rune bytes_beq in refl

register_capped_example :
    length (register sample by_invite "dave" password [] with_invite).1.db.users ≤ 3
register_capped_example =
    register_capped sample by_invite "dave" password [] with_invite sample-IsPasswordLawful
      (omega arith) (omega arith)

refused_name : register sample new_service "X" password [] start ≡ (err username_policy, start)
unfolding register is_username raise_if raise ◌>>=◌
refused_name = refl

register-eq_of_err_example : start.db ≡ start.db
register-eq_of_err_example =
    register-eq_of_err sample new_service "X" password [] start username_policy start refused_name
