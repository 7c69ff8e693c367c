-- ===== src/Database/Migrations.antt =====
-- internal/database/database.go: the embedded migrations and their runner. What PostgreSQL does with
-- the text of a migration is an argument, and so is which of the other calls fail: the calls of the
-- runner are numbered from 0, the four of each migration that is applied included.
pub mod Ascending
pub mod Prefix
pub mod Rerun
use Prim.Native.Nat.{max}
use securevault.Base.Chain.{or_error, ◌>>=◌, ◌>>◌, fail_if}
use securevault.Text.Numbers.{parse_int}
use securevault.Base.{
  ltb, leb, if◌then◌else◌, ◌==◌, nat_eq, string_eq, Bytes, bytes_eq, any, Fault, Result, insert, ℤ,
  internal, ok, err, pos, ℕ, suc, ◌+◌, ◌-◌, ap, Bool, true, false, ◌||◌, Option, none, some, List,
  [], ◌∷◌,
}

pub record Migration : Type 0 where
  pub version : ℕ
  pub name : Bytes
  pub sql : Bytes

-- strings.Cut at the first `_`: what stands before it.
unfoldable pub prefix : Bytes → Option Bytes
prefix [] = none
prefix (c ∷ s) = let rest = prefix s in if c == b'_' then some [] else cons_to c rest
  where
    cons_to : ℕ → Option Bytes → Option Bytes
    cons_to c none = none
    cons_to c (some t) = some (c ∷ t)

abbrev version_of : Option ℤ → Result ℕ
version_of (some (pos n)) = if n == 0 then err internal else ok n
version_of _ = err internal

-- The version that a file name begins with.
unfoldable pub parse_version : Bytes → Result ℕ
unfolding prefix parse_int
parse_version name = do num ← or_error (prefix name) internal; version_of (parse_int num)

-- The loop over the directory, with the versions that were seen.
unfoldable pub read_entries : List ℕ → List (Bytes × Bytes) → Result (List Migration)
unfolding parse_version
read_entries seen [] = ok []
read_entries seen ((name, body) ∷ entries) = do
  v ← parse_version name
  fail_if (any (λ s. s == v) seen) internal
  rest ← read_entries (v ∷ seen) entries
  ok (record { version = v; name = name; sql = body } ∷ rest)

unfoldable pub insert_migration : Migration → List Migration → List Migration
insert_migration m [] = m ∷ []
insert_migration m (n ∷ ns) =
    let rest = insert_migration m ns in if ltb m.version n.version then m ∷ n ∷ ns else n ∷ rest

unfoldable pub sort_migrations : List Migration → List Migration
unfolding insert_migration
sort_migrations [] = []
sort_migrations (m ∷ ms) = insert_migration m (sort_migrations ms)

unfoldable pub load_migrations : List (Bytes × Bytes) → Result (List Migration)
unfolding read_entries sort_migrations
load_migrations entries = do ms ← read_entries [] entries; ok (sort_migrations ms)

-- The database as the runner sees it: its tables, and the rows of schema_version.
pub record Schema (S : Type 0) : Type 0 where
  pub tables : S
  pub versions : List ℕ

-- COALESCE(MAX(version), 0)
abbrev pub current_version : List ℕ → ℕ
current_version [] = 0
current_version (v ∷ vs) = max v (current_version vs)

-- What Migrate returns, and what it leaves.
pub record Outcome (S : Type 0) : Type 0 where
  pub applied : ℕ
  pub failed : Bool
  pub schema : Schema S

module _ {S : Type 0} (exec : Bytes → S → Option S) (fails : ℕ → Bool) where
  -- Begin, the script, the row of schema_version, Commit; an error rolls all of it back. The
  -- column is an int4 that is the primary key.
  unfoldable pub apply_one : ℕ → Migration → Schema S → Result (Schema S)
  apply_one t m s = do
    fail_if (fails t) internal
    tables ← or_error (exec m.sql s.tables) internal
    fail_if (fails (t + 2) || ltb 2147483647 m.version || any (λ v. v == m.version) s.versions)
        internal
    fail_if (fails (t + 3)) internal
    ok (record { tables = tables; versions = m.version ∷ s.versions })

  -- The loop, with the number of migrations that were applied.
  unfoldable pub apply_all : ℕ → ℕ → ℕ → List Migration → Schema S → Outcome S
  unfolding apply_one
  apply_all t current applied [] s = record { applied = applied; failed = false; schema = s }
  apply_all t current applied (m ∷ ms) s = elim (leb m.version current) [
    | true ↦ apply_all t current applied ms s
    | false ↦ elim (apply_one t m s) [
      | err e ↦ record { applied = applied; failed = true; schema = s }
      | ok s' ↦ apply_all (t + 4) current (suc applied) ms s'
    ]
  ]

  -- From the directory on.
  unfoldable pub apply_loaded : Result (List Migration) → Schema S → Outcome S
  unfolding apply_all
  apply_loaded (err e) s = record { applied = 0; failed = true; schema = s }
  apply_loaded (ok ms) s = apply_all 4 (current_version s.versions) 0 ms s

  -- Acquire, the lock, CREATE TABLE, the current version; then the directory and the loop.
  unfoldable pub migrate : List (Bytes × Bytes) → Schema S → Outcome S
  unfolding load_migrations apply_loaded
  migrate entries s =
      if fails 0 || fails 1 || fails 2 || fails 3
      then record { applied = 0; failed = true; schema = s }
      else apply_loaded (load_migrations entries) s
