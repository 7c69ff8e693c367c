-- ===== src/Audit.antt =====
-- internal/audit/audit.go: the append-only log. The newest event is the head of the list.
pub mod Laws
use securevault.Base.{
  if◌then◌else◌, ◌==◌, nat_eq, string_eq, bytes_eq, Fault, internal, ok, err, ℕ, suc, ◌+◌, ◌-◌,
  String, ap, Bool, not, ◌||◌, none, some, List, [], ◌∷◌,
}
use securevault.Platform.{Platform}
use securevault.Database.Schema.{AuditRow, Target}
use securevault.Effect.{World, M, ◌>>=◌, ◌>>◌, gets, modify, raise_if, ignore, call}

abbrev pub result_ok : String
result_ok = "ok"

abbrev pub result_denied : String
result_denied = "denied"

abbrev pub result_error : String
result_error = "error"

pub record Event : Type 0 where
  pub actor_id : String
  pub actor_name : String
  pub action : String
  pub target : Target
  pub result : String
  pub reason : String
  pub request_id : String

-- The row of an event; the table's CHECK admits the three results.
unfoldable pub to_row : ℕ → ℕ → Event → AuditRow
to_row id at e = record {
  id = id;
  at = at;
  actor_id = if e.actor_id == "" then none else some e.actor_id;
  actor_name = e.actor_name;
  action = e.action;
  target = e.target;
  result = e.result;
  reason = e.reason;
  request_id = e.request_id;
}

abbrev pub is_result : String → Bool
is_result r = r == result_ok || r == result_denied || r == result_error

-- The number that the identity column gave last, to a row that is there.
abbrev pub newest_id : List AuditRow → ℕ
newest_id [] = 0
newest_id (e ∷ es) = e.id

abbrev pub append_event : Platform → ℕ → Event → World → World
append_event p at e w = record w {
  audit_events =
      to_row (suc (newest_id w.audit_events + p.identity_gap w.step)) at e ∷ w.audit_events;
}

-- `Record`: an error is logged, and not returned.
unfoldable pub record_event : Platform → Event → M (Unit {0})
unfolding call
record_event p e = ignore (do
  at ← gets (λ w. p.now w.step)
  call p
  raise_if (not (is_result e.result)) internal
  modify (append_event p at e))
