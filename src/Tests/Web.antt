-- ===== src/Tests/Web.antt =====
-- Requests to the endpoints, and pages of the audit log.
use securevault.Api.Answer.{write_error}
use securevault.Auth.Sessions.{new_service}
use securevault.Tests.Sessions.{signed_in, token}
use securevault.Tests.{repo, start, alice}
use securevault.Api.Paging.{audit_page-continues}
use securevault.Auth.User.{is_admin}
use securevault.Database.Schema.{named, AuditRow}
use securevault.Api.AdminHandlers.{cut_page, audit_page, older}
use securevault.Api.Laws.{
  handler-Entered, handle_user-is_admin, handle_user-IsDoubleSubmit, Refused, IsDoubleSubmit,
  Entered,
}
use securevault.Api.Guards.{Client, Server}
use securevault.Api.Server.{
  for_users, handler, handle_user, delete_one_file, get_invites, get_files,
}
use securevault.Base.{
  nat_eq, string_eq, bytes_eq, codes, ok, ℕ, ◌≡◌, refl, ◌⊎◌, true, false, none, some, List, [], ◌∷◌,
  ◌++◌, arith,
}
use securevault.Platform.Sample.{sample}

abbrev stranger : Client
stranger = record {
  session = none;
  csrf = none;
  csrf_header = [];
  remote_addr = "10.0.0.1:4000";
  path = "/api/files";
  request_id = "r1";
}

abbrev server : Server
server = record { auth = new_service; files = repo; dev_mode = false; max_upload = 100; ui = none }

handle_user-IsDoubleSubmit_example :
    IsDoubleSubmit stranger
    ⊎ Refused (handle_user sample server stranger (delete_one_file "id1") alice) start
handle_user-IsDoubleSubmit_example =
    handle_user-IsDoubleSubmit sample server stranger (delete_one_file "id1") alice start refl

handle_user-is_admin_example :
    (is_admin alice ≡ true) ⊎ Refused (handle_user sample server stranger get_invites alice) start
handle_user-is_admin_example =
    handle_user-is_admin sample server stranger get_invites alice start refl

-- A client with the token of a live session.
abbrev member : Client
member = record stranger { session = some token }

handler-Entered_example :
    Entered sample server member get_files signed_in
    ⊎ ((handler sample server member (for_users get_files) signed_in).0
        ≡ ok (write_error 401 "authentication required"))
handler-Entered_example = handler-Entered sample server member get_files signed_in

abbrev logged : ℕ → AuditRow
logged id = record {
  id = id;
  at = 0;
  actor_id = none;
  actor_name = "alice";
  action = "auth.login";
  target = named "alice";
  result = "ok";
  reason = "";
  request_id = "";
}

abbrev log : List AuditRow
log = logged 3 ∷ logged 2 ∷ logged 1 ∷ []

audit_page-continues_example : older 0 log ≡ (audit_page 2 0 log).events ++ older 2 log
audit_page-continues_example =
    audit_page-continues 2 0 4 log 2
      ((omega arith, omega arith), ((omega arith, omega arith), ((omega arith, omega arith), tt)))
      (unfold audit_page older cut_page in refl)

-- A build with an interface of one page.
abbrev with_page : Server
with_page = record server {
  ui = some (record {
    opens = λ path. false;
    asset_headers = λ path. ("Content-Type", codes "text/css") ∷ [];
    index = some (codes "<html>");
  });
}
