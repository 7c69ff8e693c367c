-- ===== src/Effect.antt =====
-- A call of the program: it reads and changes the database, the audit table and the disk, and returns
-- a result. What was changed stays changed after an error, but for what a transaction rolls back.
pub mod Keeps
pub mod Bind
pub mod Runs
pub mod Files
pub mod RollsBack
use securevault.Base.{
  if◌then◌else◌, nat_eq, string_eq, Bytes, bytes_eq, drop, Fault, Error, Result, pg, internal, ok,
  err, ℕ, suc, ◌-◌, code, ap, Bool, true, false, not, Option, none, some, List,
}
use securevault.Platform.{Platform}
use securevault.Database.Schema.{Db, AuditRow}

-- The audit table stands apart from `db`, since the logger writes it on a connection of its own: a
-- rollback does not undo an audit event. The disk is the list of its files, by path.
pub record World : Type 0 where
  pub db : Db
  pub audit_events : List AuditRow
  pub disk : List (Bytes × Bytes)
  -- The `done` fields of the staged objects, by the number of the call that made each.
  pub done : List (ℕ × Bool)
  pub step : ℕ

abbrev pub M : Type 0 → Type 0
M A = World → Result A × World

unfoldable pub pure : {A : Type 0} → A → M A
pure a w = (ok a, w)

unfoldable pub raise : {A : Type 0} → Error → M A
raise e w = (err e, w)

unfoldable pub gets : {A : Type 0} → (World → A) → M A
gets f w = (ok (f w), w)

-- The error of a call is a value for the code after it: `r, err := m()`.
unfoldable pub attempt : {A : Type 0} → M A → M (Result A)
attempt m w = let (r, w') = m w in (ok r, w')

unfoldable pub lift : {A : Type 0} → Result A → M A
lift r w = (r, w)

unfoldable pub or_raise : {A : Type 0} → Option A → Error → M A
unfolding pure raise
or_raise none e = raise e
or_raise (some a) e = pure a

unfoldable pub modify : (World → World) → M (Unit {0})
modify f w = (ok tt, f w)

-- An early return: `if c { return err }`.
unfoldable pub raise_if : Bool → Error → M (Unit {0})
unfolding pure raise
raise_if true e = raise e
raise_if false e = pure tt

-- A call of which the error is dropped.
unfoldable pub ignore : {A : Type 0} → M A → M (Unit {0})
ignore m w = (ok tt, (m w).1)

-- `if err := m(); err != nil { cleanup(); return err }`, with the error that is returned.
abbrev pub recover :
    {A : Type 0} → M (Unit {0}) → (Error → Error) → Result A × World → Result A × World
recover cleanup f (ok a, w) = (ok a, w)
recover cleanup f (err e, w) = (err (f e), (cleanup w).1)

unfoldable pub on_error : {A : Type 0} → M (Unit {0}) → (Error → Error) → M A → M A
on_error cleanup f m w = recover cleanup f (m w)

-- `if err != nil { … }`, which goes on by the error.
abbrev pub handle : {A : Type 0} → (Error → M A) → Result A × World → Result A × World
handle f (ok a, w) = (ok a, w)
handle f (err e, w) = f e w

unfoldable pub rescue : {A : Type 0} → (Error → M A) → M A → M A
rescue f m w = handle f (m w)

-- `defer cleanup()`, of which the error is dropped.
unfoldable pub finally : {A : Type 0} → M (Unit {0}) → M A → M A
finally cleanup m w = let (r, w') = m w in (r, (cleanup w').1)

-- The rest of a chain, after the end of its first call.
abbrev pub continue : {A B : Type 0} → (A → M B) → Result A × World → Result B × World
continue f (ok a, w) = f a w
continue f (err e, w) = (err e, w)

infixl 5 ◌>>=◌ ◌>>◌
-- Unfolding a chain unfolds the small calls that it is made of.
unfoldable pub ◌>>=◌ : {A B : Type 0} → M A → (A → M B) → M B
unfolding pure raise gets modify lift or_raise raise_if ignore attempt on_error rescue finally
◌>>=◌ m f w = continue f (m w)

abbrev pub ◌>>◌ : {B : Type 0} → M (Unit {0}) → M B → M B
m >> k = m >>= λ _. k

abbrev pub tick : World → World
tick w = record w { step = suc w.step }

abbrev pub call_end : Option Fault → M (Unit {0})
call_end none w = (ok tt, tick w)
call_end (some f) w = (err (pg f), tick w)

abbrev pub os_call_end : Option Fault → M (Unit {0})
os_call_end none w = (ok tt, tick w)
os_call_end (some f) w = (err internal, tick w)

-- What an SQL statement does to the database: it fails on a violated constraint, or changes the
-- tables and returns its rows.
abbrev pub Statement : Type 0 → Type 0
Statement A = Db → Result (A × Db)

unfoldable pub write_back : {A : Type 0} → Result (A × Db) → M A
write_back (ok (a, d)) w = (ok a, record w { db = d })
write_back (err e) w = (err e, w)

-- The end of a transaction that found the database `d`.
abbrev pub settle : {A : Type 0} → Db → Result A × World → Result A × World
settle d (ok a, w) = (ok a, w)
settle d (err e, w) = (err e, record w { db = d })

module _ (p : Platform) where
  -- One call of the database driver.
  unfoldable pub call : M (Unit {0})
  call w = call_end (p.fault w.step) w

  -- One call of the operating system or of the random source: its error is an anonymous one.
  unfoldable pub os_call : M (Unit {0})
  os_call w = os_call_end (p.fault w.step) w

  -- A statement run on the pool or in the open transaction.
  unfoldable pub run : {A : Type 0} → Statement A → M A
  unfolding call write_back
  run s = do call; r ← gets (λ w. s w.db); write_back r

  -- A query that writes nothing.
  unfoldable pub query : {A : Type 0} → (Db → A) → M A
  unfolding call
  query f = do call; gets (λ w. f w.db)

  -- pool.Begin, the body, tx.Commit. A COMMIT that fails is taken to have committed nothing: the
  -- case of a connection that is lost after the server has committed is left out.
  unfoldable pub in_transaction : {A : Type 0} → M A → M A
  unfolding call
  in_transaction body = do call; a ← body; call; pure a

  -- The same, with the deferred Rollback on each other way out.
  unfoldable pub transaction : {A : Type 0} → M A → M A
  unfolding in_transaction
  transaction body w = settle w.db (in_transaction body w)

  -- now() of the statement that runs next.
  abbrev pub clock : M ℕ
  clock = gets (λ w. p.now w.step)
