-- ===== src/Auth/Registration.antt =====
-- internal/auth: `Register` and `admitRegistration`.
pub mod Admitted
pub mod Once
pub mod Limits
pub mod Registered
use securevault.Files.Upload.{is_unique_violation}
use securevault.Files.Node.{event}
use securevault.Audit.{result_ok, result_denied, record_event}
use securevault.Auth.Sessions.{hash_token, Service}
use securevault.Database.Table.{update, find}
use securevault.Auth.Invites.{is_open}
use securevault.Auth.Codes.{normalize_invite_code}
use securevault.Database.Schema.{named, Db, InviteRow, UserRow}
use securevault.Auth.Password.{hash_password}
use securevault.Auth.User.{role_user, User}
use securevault.Auth.Policy.{
  is_full, mode_invite, RegistrationStatus, mode_closed, status_of, RegistrationPolicy,
}
use securevault.Base.{
  ltb, leb, if◌then◌else◌, is_some, ◌==◌, nat_eq, string_eq, Bytes, bytes_eq, length, take, count,
  any, Fault, Error, insert, codes, unique_violation, username_taken, password_policy,
  username_policy, registration_closed, invite_required, invite_invalid, user_limit_reached, pg, ok,
  err, ℕ, ◌-◌, String, code, ap, Bool, false, not, ◌&&◌, ◌||◌, Option, none, some, [], ◌∷◌,
}
use securevault.Platform.{Platform}
use securevault.Effect.{
  run, transaction, raise, clock, rescue, raise_if, pure, gets, query, call, M, Statement, ◌>>=◌,
  ◌>>◌,
}

abbrev is_lower_or_digit : ℕ → Bool
is_lower_or_digit c = (leb b'a' c && leb c b'z') || (leb b'0' c && leb c b'9')

abbrev is_username_char : ℕ → Bool
is_username_char c = is_lower_or_digit c || c == b'_' || c == b'.' || c == b'-'

abbrev matches_username : Bytes → Bool
matches_username [] = false
matches_username (c ∷ cs) =
    is_lower_or_digit c
    && not (any (λ c. not (is_username_char c)) cs)
    && leb 2 (length cs)
    && leb (length cs) 31

-- usernameRe.MatchString
unfoldable pub is_username : String → Bool
is_username name = matches_username (codes name)

abbrev pub password_min_len : ℕ
password_min_len = 8

abbrev pub password_max_len : ℕ
password_max_len = 128

abbrev pub breaks_policy : Bytes → Bool
breaks_policy password =
    ltb (length password) password_min_len || ltb password_max_len (length password)

-- INSERT INTO users (username, password_hash) …, with the defaults of the other columns.
unfoldable pub insert_user : UserRow → Statement (Unit {0})
insert_user u d =
    if is_some (find (λ r. r.id) u.id d.users)
      || is_some (find (λ r. r.username) u.username d.users)
    then err (pg unique_violation)
    else ok (tt, record d { users = u ∷ d.users })

abbrev pub is_redeemable : ℕ → InviteRow → Bool
is_redeemable now i = is_open i && ltb now i.expires_at

-- SELECT id FROM invites WHERE code_hash = $1 AND … FOR UPDATE
unfoldable pub select_invite : Bytes → ℕ → Db → Option String
select_invite hash now d = elim (find (λ r. r.code_hash) hash d.invites) [
  | none ↦ none
  | some i ↦ if is_redeemable now i then some i.id else none
]

-- UPDATE invites SET used_by = $1, used_at = now() WHERE id = $2
unfoldable pub consume_invite : String → String → ℕ → Statement (Unit {0})
consume_invite id user now d = ok (
  tt,
  record d {
    invites =
        update (λ r. r.id) id (λ r. record r { used_by = some user; used_at = some now }) d.invites;
  },
)

-- An event of a caller who is not logged in.
abbrev pub anonymous : String → User
anonymous username = record { id = ""; username = username; role = "" }

-- The reason of an admission, and the invite to consume.
pub record Admission : Type 0 where
  pub reason : String
  pub invite : Option String

module _ (p : Platform) where
  abbrev pub deny_registration : String → String → Error → M Admission
  deny_registration username reason e =
      record_event p
        (event (anonymous username) "auth.register" (named username) result_denied reason)
      >> raise e

  -- With the row that the code selects.
  abbrev pub admit_found : String → Option String → M Admission
  admit_found username none = deny_registration username "invite_invalid" invite_invalid
  admit_found username (some id) = pure (record { reason = "invite"; invite = some id })

  -- The case of RegistrationInvite, on the normalized code.
  unfoldable pub admit_invited : String → Bytes → ℕ → M Admission
  unfolding select_invite
  admit_invited username code now =
      if code == []
      then deny_registration username "invite_required" invite_required
      else (do found ← query p (select_invite (hash_token p code) now); admit_found username found)

  -- The `switch` on the mode, for a system that has accounts.
  unfoldable pub admit_by_mode : RegistrationPolicy → String → Bytes → ℕ → M Admission
  unfolding admit_invited normalize_invite_code
  admit_by_mode q username invite_code now =
      if q.mode == mode_closed
      then deny_registration username "registration_closed" registration_closed
      else if q.mode == mode_invite
      then admit_invited username (normalize_invite_code p invite_code) now
      else pure (record { reason = "open"; invite = none })

  unfoldable pub admit_registration : RegistrationPolicy → String → Bytes → ℕ → M Admission
  unfolding admit_by_mode call
  admit_registration q username invite_code now = do
    call p
    count ← query p (λ d. length d.users)
    if count == 0
        then pure (record { reason = "bootstrap"; invite = none })
        else if is_full q count
        then deny_registration username "user_limit" user_limit_reached
        else admit_by_mode q username invite_code now

  abbrev pub new_user_row : String → String → Bytes → ℕ → UserRow
  new_user_row id username hash now = record {
    id = id;
    username = username;
    password_hash = hash;
    role = role_user;
    created_at = now;
    password_changed_at = now;
  }

  -- `if inviteID != ""`, in the transaction and after it.
  abbrev pub consume : Option String → String → ℕ → M (Unit {0})
  consume none user now = pure tt
  consume (some invite) user now = run p (consume_invite invite user now)

  abbrev pub record_redemption : User → Option String → M (Unit {0})
  record_redemption u none = pure tt
  record_redemption u (some invite) =
      record_event p (event u "invite.redeem" (named invite) result_ok "")

  -- The body of the transaction, of which `now` is the start.
  unfoldable pub register_body :
      RegistrationPolicy → String → Bytes → Bytes → ℕ → M (User × Admission)
  unfolding admit_registration
  register_body q username hash invite_code now = do
    admission ← admit_registration q username invite_code now
    id ← gets (λ w. p.uuid w.step)
    rescue (λ e. if is_unique_violation e then raise username_taken else raise e)
        (run p (insert_user (new_user_row id username hash now)))
    consume admission.invite id now
    pure (record { id = id; username = username; role = role_user }, admission)

  unfoldable pub register : Service → String → Bytes → Bytes → M User
  unfolding register_body hash_password
  register sv username password invite_code = do
    raise_if (not (is_username username)) username_policy
    raise_if (breaks_policy password) password_policy
    hash ← hash_password p password
    now ← clock p
    (u, admission) ← transaction p (register_body sv.policy username hash invite_code now)
    record_event p (event u "auth.register" (named username) result_ok admission.reason)
    record_redemption u admission.invite
    pure u

  unfoldable pub registration_status : Service → M RegistrationStatus
  unfolding status_of
  registration_status sv = do
    count ← query p (λ d. length d.users)
    pure (status_of sv.policy count)
