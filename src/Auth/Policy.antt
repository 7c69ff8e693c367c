-- ===== src/Auth/Policy.antt =====
-- internal/auth/registration.go: who may create an account.
use securevault.Text.{lower_text, trim_space}
use securevault.Base.{
  ltb, leb, if◌then◌else◌, ◌==◌, nat_eq, string_eq, Bytes, bytes_eq, count, Result, codes, internal,
  ok, err, ℕ, Bool, true, false, ◌&&◌, ◌||◌, [],
}
use securevault.Platform.{Platform}

-- `RegistrationMode` is a string type.
abbrev pub mode_open : Bytes
mode_open = codes "open"

abbrev pub mode_invite : Bytes
mode_invite = codes "invite"

abbrev pub mode_closed : Bytes
mode_closed = codes "closed"

abbrev pub is_mode : Bytes → Bool
is_mode m = m == mode_open || m == mode_invite || m == mode_closed

unfoldable pub parse_registration_mode : Platform → Bytes → Result Bytes
unfolding lower_text trim_space
parse_registration_mode p s =
    let m = lower_text p (trim_space s) in
    if is_mode m then ok m else if m == [] then ok mode_open else err internal

-- `max_users` of 0 is no limit.
pub record RegistrationPolicy : Type 0 where
  pub mode : Bytes
  pub max_users : ℕ

-- What SetRegistrationPolicy installs.
unfoldable pub effective_policy : RegistrationPolicy → RegistrationPolicy
effective_policy q = if q.mode == [] then record q { mode = mode_open } else q

abbrev pub is_full : RegistrationPolicy → ℕ → Bool
is_full q count = ltb 0 q.max_users && leb q.max_users count

pub record RegistrationStatus : Type 0 where
  pub mode : Bytes
  pub accepting : Bool
  pub invite_required : Bool

-- The `switch` of RegistrationStatus, on the number of accounts.
unfoldable pub status_of : RegistrationPolicy → ℕ → RegistrationStatus
status_of q count =
    if count == 0
    then record { mode = q.mode; accepting = true; invite_required = false }
    else if is_full q count
    then record { mode = q.mode; accepting = false; invite_required = false }
    else if q.mode == mode_closed
    then record { mode = q.mode; accepting = false; invite_required = false }
    else record { mode = q.mode; accepting = true; invite_required = q.mode == mode_invite }
