-- ===== src/Files/Counts/Calls.antt =====
-- Calls that keep what holds of the tables: the audit log, the queries and the store change no table.
use securevault.Files.Quiet.{record_event-Keeps}
use securevault.Storage.Store.{stage, open_object, Reader, remove, abort, Staged, Store}
use securevault.Audit.{Event, record_event}
use securevault.Database.Schema.{AuditRow, Db}
use mathlib.Core.Path.{subst}
use securevault.Base.{nat_eq, string_eq, Bytes, bytes_eq, ℕ, refl, sym, List}
use securevault.Platform.{Platform}
use securevault.Effect.{M}
use securevault.Effect.Keeps.{Keeps}
use securevault.Storage.Tables.{
  Tables-stage, Tables-open_object, Tables-remove, Tables, Tables-abort,
}

module _ (p : Platform) (I : Db → Type 0) where
  Keeps-of_Tables :
      {A : Type 0} (m : M A)
      → ((d : Db) (es : List AuditRow) → Keeps (Tables d es) m)
      → Keeps (λ w. I w.db) m
  Keeps-of_Tables m k = record {
    at = λ w h.
        subst I
          (sym ((k w.db w.audit_events).at w (record { tables = refl; events = refl })).tables) h;
  }

  pub Keeps-record_event : (e : Event) → Keeps (λ w. I w.db) (record_event p e)
  Keeps-record_event = record_event-Keeps p λ d _. I d

  pub Keeps-stage : (s : Store) (r : Reader) (limit : ℕ) → Keeps (λ w. I w.db) (stage p s r limit)
  Keeps-stage s r limit = Keeps-of_Tables _ λ d es. Tables-stage p d es s r limit

  pub Keeps-abort : (st : Staged) → Keeps (λ w. I w.db) (abort p st)
  Keeps-abort st = Keeps-of_Tables _ λ d es. Tables-abort p d es st

  pub Keeps-remove : (s : Store) (hash : Bytes) → Keeps (λ w. I w.db) (remove p s hash)
  Keeps-remove s hash = Keeps-of_Tables _ λ d es. Tables-remove p d es s hash

  pub Keeps-open_object :
      (s : Store) (hash wrapped : Bytes) → Keeps (λ w. I w.db) (open_object p s hash wrapped)
  Keeps-open_object s hash wrapped =
      Keeps-of_Tables _ λ d es. Tables-open_object p d es s hash wrapped
