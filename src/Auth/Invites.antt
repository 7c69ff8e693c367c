-- ===== src/Auth/Invites.antt =====
-- internal/auth/registration.go: issuing, listing and revoking invites.
use securevault.Auth.Codes.{encode_base32}
use securevault.Files.Node.{event}
use securevault.Audit.{result_ok, record_event}
use securevault.Auth.User.{User, is_admin}
use securevault.Storage.Crypto.{random_bytes}
use securevault.Database.Table.{update, find}
use securevault.Text.{trim_space}
use securevault.Files.Listing.{sort_by}
use securevault.Auth.Sessions.{hash_token, minute}
use securevault.Database.Schema.{named, InviteRow, Db}
use securevault.Base.{
  ltb, leb, if◌then◌else◌, is_some, ◌==◌, nat_eq, string_eq, Bytes, bytes_eq, length, take, ℤ,
  unique_violation, broken, invite_not_found, invite_policy, admin_required, pg, ok, err, pos,
  negsuc, ℕ, ◌+◌, ◌*◌, String, Bool, not, ◌&&◌, ◌||◌, Option, none, some, List, [], ◌∷◌,
}
use securevault.Platform.{Platform}
use securevault.Effect.{
  pure, gets, run, or_raise, clock, query, raise_if, raise, M, Statement, ◌>>=◌, ◌>>◌,
}

abbrev pub invite_code_bytes : ℕ
invite_code_bytes = 16

abbrev pub hour : ℕ
hour = 60 * minute

abbrev pub invite_default_ttl : ℕ
invite_default_ttl = 168 * hour

abbrev pub invite_min_ttl : ℕ
invite_min_ttl = minute

abbrev pub invite_max_ttl : ℕ
invite_max_ttl = 720 * hour

abbrev pub invite_note_max_len : ℕ
invite_note_max_len = 64

abbrev pub invite_list_max_rows : ℕ
invite_list_max_rows = 200

pub record Invite : Type 0 where
  pub id : String
  pub note : Bytes
  pub created_by : String
  pub created_at : ℕ
  pub expires_at : ℕ
  pub used_by : String
  pub used_at : Option ℕ
  pub revoked_at : Option ℕ

-- `Status`, at the time of the call.
unfoldable pub invite_status : ℕ → Invite → String
invite_status now i =
    if is_some i.used_at
    then "used"
    else if is_some i.revoked_at
    then "revoked"
    else if ltb i.expires_at now
    then "expired"
    else "active"

-- The lifetime that is issued: 0 stands for the default, and one out of range is refused.
unfoldable pub invite_ttl : ℤ → Option ℕ
invite_ttl (negsuc n) = none
invite_ttl (pos n) =
    if n == 0
    then some invite_default_ttl
    else if ltb n invite_min_ttl || ltb invite_max_ttl n
    then none
    else some n

-- INSERT INTO invites …
unfoldable pub insert_invite : InviteRow → Statement (Unit {0})
insert_invite i d =
    if is_some (find (λ r. r.id) i.id d.invites)
      || is_some (find (λ r. r.code_hash) i.code_hash d.invites)
    then err (pg unique_violation)
    else if is_some (find (λ u. u.id) i.created_by d.users)
    then ok (tt, record d { invites = i ∷ d.invites })
    else err (pg broken)

-- COALESCE(u.username, '') of the LEFT JOIN on used_by.
abbrev pub redeemer : Db → Option String → String
redeemer d none = ""
redeemer d (some id) = elim (find (λ u. u.id) id d.users) [ none ↦ "" | some u ↦ u.username ]

unfoldable pub scan_invites : Db → List InviteRow → List Invite
scan_invites d [] = []
scan_invites d (i ∷ is) = elim (find (λ u. u.id) i.created_by d.users) [
  | none ↦ scan_invites d is
  | some c ↦
      record {
        id = i.id;
        note = i.note;
        created_by = c.username;
        created_at = i.created_at;
        expires_at = i.expires_at;
        used_by = redeemer d i.used_by;
        used_at = i.used_at;
        revoked_at = i.revoked_at;
      }
      ∷ scan_invites d is
]

-- SELECT … FROM invites … ORDER BY i.created_at DESC LIMIT $1
unfoldable pub select_invites : Db → List Invite
unfolding scan_invites sort_by
select_invites d =
    take invite_list_max_rows
      (sort_by (λ a b. leb b.created_at a.created_at) (scan_invites d d.invites))

abbrev pub is_open : InviteRow → Bool
is_open i = not (is_some i.used_at) && not (is_some i.revoked_at)

-- UPDATE invites SET revoked_at = now() WHERE id = $1 AND …: the number of rows changed.
unfoldable pub close_invite : String → ℕ → Statement ℕ
close_invite id now d = elim (find (λ r. r.id) id d.invites) [
  | none ↦ ok (0, d)
  | some i ↦
      if is_open i
      then ok (
        1,
        record d {
          invites = update (λ r. r.id) id (λ r. record r { revoked_at = some now }) d.invites;
        },
      )
      else ok (0, d)
]

module _ (p : Platform) where
  unfoldable pub create_invite : Option User → Bytes → ℤ → M (Bytes × Invite)
  unfolding is_admin random_bytes encode_base32 trim_space
  create_invite none note ttl = raise admin_required
  create_invite (some admin) note ttl = do
    raise_if (not (is_admin admin)) admin_required
    let trimmed = trim_space note
    lifetime ← or_raise (invite_ttl ttl) invite_policy
    raise_if (ltb invite_note_max_len (length trimmed)) invite_policy
    raw ← random_bytes p invite_code_bytes
    let code = encode_base32 raw
    now ← clock p
    id ← gets (λ w. p.uuid w.step)
    run p (
        insert_invite (record {
          id = id;
          code_hash = hash_token p code;
          note = trimmed;
          created_by = admin.id;
          created_at = now;
          expires_at = now + lifetime;
          used_by = none;
          used_at = none;
          revoked_at = none;
        }))
    record_event p (event admin "invite.create" (named id) result_ok "")
    pure (
      code,
      record {
        id = id;
        note = trimmed;
        created_by = admin.username;
        created_at = now;
        expires_at = now + lifetime;
        used_by = "";
        used_at = none;
        revoked_at = none;
      },
    )

  unfoldable pub list_invites : Option User → M (List Invite)
  unfolding is_admin select_invites
  list_invites none = raise admin_required
  list_invites (some admin) = do
    raise_if (not (is_admin admin)) admin_required
    query p select_invites

  unfoldable pub revoke_invite : Option User → String → M (Unit {0})
  unfolding is_admin
  revoke_invite none id = raise admin_required
  revoke_invite (some admin) id = do
    raise_if (not (is_admin admin)) admin_required
    now ← clock p
    rows ← run p (close_invite id now)
    raise_if (rows == 0) invite_not_found
    record_event p (event admin "invite.revoke" (named id) result_ok "")
