-- ===== src/Tests/Passwords.antt =====
-- Logins and changes of the password, run.
use securevault.Audit.{record_event}
use securevault.Auth.Login.LoggedIn.{login_ok, LoggedIn}
use securevault.Auth.Scan.{scan_parameters, scan_version}
use securevault.Auth.Login.Single.{change_password-single}
use securevault.Text.{decode_rune, runes_after, split}
use securevault.Auth.Password.Verify.{verify_password-hash_password}
use securevault.Storage.Crypto.{random_bytes}
use securevault.Auth.Login.Changed.{change_password_ok, Changed}
use securevault.Auth.Sessions.{
  recent_failures, prune_failures, insert_session, is_throttled, new_session_token, create_session,
  hash_token, new_service,
}
use securevault.Tests.{alice, empty_db, start}
use securevault.Auth.User.{User}
use securevault.Auth.Login.Refused.{log_in-SameAnswer, SameAnswer}
use securevault.Auth.Sessions.Opened.{pruned, throttles}
use securevault.Database.Table.{find, count_of}
use securevault.Database.Schema.{UserRow}
use securevault.Auth.Registration.{new_user_row}
use securevault.Auth.Base64.{url_char, decode_std, encode_by}
use securevault.Auth.Password.{hash_password, parse_parts, print_phc, verify_password, parse_phc}
use securevault.Auth.Login.{
  clear_failures, delete_sessions, open_session, update_password, addr_key, log_in,
  replace_password, user_key, change_password, login,
}
use securevault.Effect.{
  raise_if, lift, or_raise, write_back, call, run, query, pure, raise, os_call, World, ◌>>=◌,
}
use securevault.Base.{
  is_some, nat_eq, string_eq, Bytes, bytes_beq, bytes_eq, length, replicate, Result, codes, ok, ◌≤◌,
  ◌≡◌, refl, true, false, none, some, [], ◌∷◌, arith,
}
use securevault.Auth.Login.Throttled.{checked, login-checked_max}
use securevault.Platform.{Platform}
use securevault.Platform.Sample.{sample-IsPasswordLawful, sample}

abbrev password : Bytes
password = codes "correct horse"

abbrev next_password : Bytes
next_password = codes "battery staple"

-- A hash of the password, and an account with it.
abbrev salt : Bytes
salt = replicate 16 1

abbrev key : Bytes
key = sample.argon2_id_key password salt 3 65536 4 32

abbrev member : UserRow
member = new_user_row sample "u1" "alice" (print_phc salt key) 0

abbrev with_member : World
with_member = record start { db = record empty_db { users = member ∷ [] } }

abbrev hashed_run : Result Bytes × World
hashed_run = hash_password sample password start

verify_password-hash_password_example :
    verify_password sample password (
      print_phc
        (sample.random 0 16)
        (sample.argon2_id_key password (sample.random 0 16) 3 65536 4 32))
    ≡ ok true
verify_password-hash_password_example =
    verify_password-hash_password sample sample-IsPasswordLawful password _ start hashed_run.1 run
  where
    run : hash_password sample password start ≡ (
      ok (
          print_phc
            (sample.random 0 16)
            (sample.argon2_id_key password (sample.random 0 16) 3 65536 4 32)),
      hashed_run.1,
    )
    run = unfold hash_password random_bytes os_call raise pure ◌>>=◌ in refl

matches : verify_password sample password member.password_hash ≡ ok true
unfolding verify_password parse_phc parse_parts split print_phc bytes_beq encode_by scan_version
    runes_after decode_rune scan_parameters decode_std
matches = refl

mismatch : verify_password sample next_password member.password_hash ≡ ok false
unfolding verify_password parse_phc parse_parts split print_phc bytes_beq encode_by scan_version
    runes_after decode_rune scan_parameters decode_std
mismatch = refl

abbrev login_run : Result (Bytes × User) × World
login_run = login sample new_service "alice" password "10.0.0.1" with_member

abbrev first_token : Bytes
first_token = encode_by url_char (sample.random 4 32)

login_eq :
    login sample new_service "alice" password "10.0.0.1" with_member
    ≡ (ok (first_token, alice), login_run.1)
unfolding login log_in open_session clear_failures create_session new_session_token random_bytes
    os_call is_throttled prune_failures insert_session recent_failures record_event query run call
    write_back pure raise lift ◌>>=◌ verify_password parse_phc parse_parts split print_phc bytes_beq
    encode_by scan_version runes_after decode_rune scan_parameters decode_std
login_eq = refl

login_ok_example :
    (throttles
        (user_key "alice")
        (addr_key "10.0.0.1")
        (sample.now 1)
        (pruned (sample.now 0) with_member.db)
      ≡ false)
    × LoggedIn sample new_service "alice" password
        (pruned (sample.now 0) with_member.db)
        first_token
        alice
        login_run.1.db
login_ok_example = login_ok sample new_service "alice" password "10.0.0.1" with_member login_eq

log_in-SameAnswer_example :
    SameAnswer
      (log_in sample new_service "alice" next_password "10.0.0.1" none with_member)
      (log_in sample new_service "alice" next_password "10.0.0.1" (some member) with_member)
log_in-SameAnswer_example =
    log_in-SameAnswer sample new_service "alice" next_password "10.0.0.1" member with_member
      mismatch

abbrev change_run : Result Bytes × World
change_run = change_password sample new_service alice password next_password with_member

abbrev next_token : Bytes
next_token = encode_by url_char (sample.random 4 32)

change_eq :
    change_password sample new_service alice password next_password with_member
    ≡ (ok next_token, change_run.1)
unfolding change_password replace_password update_password delete_sessions hash_password
    create_session new_session_token random_bytes os_call insert_session record_event query run call
    write_back pure raise or_raise raise_if lift ◌>>=◌ verify_password parse_phc parse_parts split
    print_phc bytes_beq encode_by scan_version runes_after decode_rune scan_parameters decode_std
change_eq = refl

change_password_ok_example :
    ((8 ≤ length next_password) × (length next_password ≤ 128))
    × Changed sample new_service alice password next_password
        (sample.now 2)
        with_member.db
        next_token
        change_run.1.db
change_password_ok_example =
    change_password_ok sample new_service alice password next_password with_member
      sample-IsPasswordLawful change_eq

change_password-single_example :
    (count_of (λ s. s.user_id) "u1" change_run.1.db.sessions ≡ 1)
    × (is_some (find (λ s. s.token_hash) (hash_token sample next_token) change_run.1.db.sessions)
        ≡ true)
change_password-single_example =
    change_password-single sample new_service alice password next_password with_member
      sample-IsPasswordLawful change_eq

-- A platform whose clock stands still for the run.
abbrev still : Platform
still = record sample { now = λ t. 1000 }

wrong_still : verify_password still next_password member.password_hash ≡ ok false
unfolding verify_password parse_phc parse_parts split print_phc bytes_beq encode_by scan_version
    runes_after decode_rune scan_parameters decode_std
wrong_still = refl

login-checked_max_example :
    checked still
      (λ t. refl)
      new_service
      "alice"
      ((next_password, "10.0.0.1") ∷ (next_password, "10.0.0.2") ∷ [])
      with_member
    ≤ 10
login-checked_max_example =
    login-checked_max still (λ t. refl) new_service "alice"
      ((next_password, "10.0.0.1") ∷ (next_password, "10.0.0.2") ∷ []) 1000 with_member
      (λ s. (omega arith, omega arith)) (wrong_still, (wrong_still, tt))
