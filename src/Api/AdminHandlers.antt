-- ===== src/Api/AdminHandlers.antt =====
-- The handlers of administrators: internal/api/handlers_admin.go, and the end of handlers_files.go.
use securevault.Files.Listing.{sort_by}
use securevault.Auth.User.{User}
use securevault.Text.Numbers.{parse_int}
use securevault.Auth.Invites.{invite_status, revoke_invite, list_invites, create_invite, Invite}
use securevault.Api.Answer.{
  UserInfo, EventInfo, with_body, page_body, status_body, invite_body, error_text, invites_body,
  users_body, write_error, write_json, Response, answer, path_uuid,
}
use securevault.Database.Schema.{UserRow, AuditRow}
use securevault.Effect.{gets, call, clock, pure, query, M, ◌>>=◌, ◌>>◌}
use securevault.Base.{
  ltb, leb, if◌then◌else◌, ◌==◌, nat_eq, string_eq, Bytes, bytes_eq, length, take, keep, ℤ, wrap64,
  invite_not_found, invite_policy, pos, negsuc, ℕ, suc, ◌*◌, String, code, ◌||◌, Option, none, some,
  List, [], ◌∷◌, map,
}
use securevault.Platform.{Platform}

pub record InviteRequest : Type 0 where
  pub note : Bytes
  pub ttl_hours : ℤ

abbrev nanoseconds_per_hour : ℕ
nanoseconds_per_hour = 3600000000000

-- A query parameter of whole numbers, within bounds; an absent one has a default.
unfoldable pub query_number : Bytes → ℕ → ℕ → ℕ → Option ℕ
unfolding parse_int
query_number text fallback least most =
    if text == [] then some fallback else within (parse_int text)
  where
    within : Option ℤ → Option ℕ
    within (some (pos n)) = if ltb n least || ltb most n then none else some n
    within _ = none

-- One page of the audit log, and where the next one begins.
pub record Page : Type 0 where
  pub events : List AuditRow
  pub next_before : Option ℕ

abbrev pub user_info : UserRow → UserInfo
user_info u = record { id = u.id; username = u.username; role = u.role; created_at = u.created_at }

abbrev pub event_info : AuditRow → EventInfo
event_info e = record {
  id = e.id;
  at = e.at;
  actor = e.actor_name;
  action = e.action;
  target = e.target;
  result = e.result;
  reason = e.reason;
  request_id = e.request_id;
}

-- SELECT … FROM audit_events WHERE $1 = 0 OR id < $1 ORDER BY id DESC: the log has the newest first.
unfoldable pub older : ℕ → List AuditRow → List AuditRow
older before log = if before == 0 then log else keep (λ e. ltb e.id before) log

abbrev pub last_id : List AuditRow → Option ℕ
last_id [] = none
last_id (e ∷ []) = some e.id
last_id (e ∷ f ∷ es) = last_id (f ∷ es)

-- From the rows of one more than a page.
unfoldable pub cut_page : ℕ → List AuditRow → Page
cut_page limit rows =
    if ltb limit (length rows)
    then record { events = take limit rows; next_before = last_id (take limit rows) }
    else record { events = rows; next_before = none }

unfoldable pub audit_page : ℕ → ℕ → List AuditRow → Page
unfolding older cut_page
audit_page limit before log = cut_page limit (take (suc limit) (older before log))

-- time.Duration(req.TTLHours) * time.Hour, of hours that are not negative.
unfoldable pub ttl_of_hours : ℕ → ℤ
unfolding wrap64
ttl_of_hours hours = wrap64 (hours * nanoseconds_per_hour)

module _ (p : Platform) where
  unfoldable pub handle_admin_users : M Response
  unfolding answer
  handle_admin_users =
      answer (query p (λ d. sort_by (λ u v. leb u.created_at v.created_at) d.users))
        λ users. pure (write_json 200 (users_body (map user_info users)))

  abbrev pub with_limits : Option ℕ → Option ℕ → M Response
  with_limits none before = pure (write_error 400 "limit must be 1-1000")
  with_limits (some limit) none = pure (write_error 400 "before must be a positive event id")
  with_limits (some limit) (some before) =
      answer (call p >> gets (λ w. audit_page limit before w.audit_events))
        λ page. pure (write_json 200 (page_body (map event_info page.events) page.next_before))

  -- The query reads the audit table.
  unfoldable pub handle_admin_audit : Bytes → Bytes → M Response
  unfolding query_number audit_page answer
  handle_admin_audit limit_text before_text =
      with_limits (query_number limit_text 50 1 1000)
        (query_number before_text 0 1 9223372036854775807)

  -- toInviteResponse, at the time of the answer.
  abbrev pub to_invite_response : ℕ → Invite → Invite × String
  to_invite_response now i = (i, invite_status now i)

  unfoldable pub handle_admin_invites : User → M Response
  unfolding list_invites invite_status answer
  handle_admin_invites u = answer (list_invites p (some u)) λ invites.
      (clock p >>= λ now.
      pure (write_json 200 (invites_body (map (to_invite_response now) invites))))

  abbrev pub issue : User → Bytes → ℤ → M Response
  issue u note (negsuc n) = pure (write_json 400 (error_text invite_policy))
  issue u note (pos hours) =
      answer (create_invite p (some u) note (ttl_of_hours hours)) λ (code, invite).
        (clock p >>= λ now.
        pure (write_json 201 (invite_body code (to_invite_response now invite))))

  unfoldable pub handle_admin_create_invite : User → Option InviteRequest → M Response
  unfolding create_invite invite_status ttl_of_hours answer
  handle_admin_create_invite u body = with_body body λ req. issue u req.note req.ttl_hours

  abbrev pub revoke_one : User → Option String → M Response
  revoke_one u none = pure (write_json 404 (error_text invite_not_found))
  revoke_one u (some id) =
      answer (revoke_invite p (some u) id) λ _. pure (write_json 200 (status_body "revoked"))

  unfoldable pub handle_admin_revoke_invite : User → String → M Response
  unfolding path_uuid revoke_invite answer
  handle_admin_revoke_invite u value = revoke_one u (path_uuid p value)
