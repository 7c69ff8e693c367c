-- ===== src/Audit/Laws.antt =====
-- What an audit event leaves: the tables of the program, and no error.
use securevault.Files.Counts.Calls.{Keeps-record_event}
use securevault.Effect.{ignore, World}
use securevault.Effect.RollsBack.{Sure, Steady-of_Keeps, Steady}
use securevault.Audit.{record_event, Event}
use securevault.Base.{nat_eq, string_eq, bytes_eq, Result, ok, ◌≡◌, sym, ap, ◌∙◌}
use securevault.Platform.{Platform}

module _ (p : Platform) where
  pub record_event-Steady : (e : Event) → Steady (record_event p e)
  record_event-Steady e = Steady-of_Keeps _ λ d. Keeps-record_event p (λ x. x ≡ d) e

  pub record_event-Sure : (e : Event) → Sure (record_event p e)
  unfolding record_event ignore
  record_event-Sure e = record { at = λ w x w' h. absurd (cc h) }

  pub record_event_db :
      (e : Event) (w : World) {a : Unit {0}} {w' : World}
      → record_event p e w ≡ (ok a, w')
      → w'.db ≡ w.db
  record_event_db e w h =
      sym (ap (λ (x : Result (Unit {0}) × World). x.1.db) h) ∙ (record_event-Steady e).at w
