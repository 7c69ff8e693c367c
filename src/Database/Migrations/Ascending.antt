-- ===== src/Database/Migrations/Ascending.antt =====
-- The order of the migrations that are loaded.
use securevault.Text.Numbers.{parse_int}
use securevault.Database.Migrations.{
  version_of, load_migrations, read_entries, parse_version, insert_migration, Migration,
  sort_migrations,
}
use securevault.Base.Chain.{fail_if_ok, chain_ok, ok-injective}
use securevault.Base.{
  ltb, ltb→lt, Bool-cases, ◌==◌, eq_iff, nat_eq, string_eq, Bytes, bytes_eq, length, any, All, ℤ,
  ok, ℕ, suc, ◌<◌, ◌≡◌, refl, ap, ◌∙◌, ◌≢◌, inl, inr, false, Option, List, [], ◌∷◌, arith,
}

-- Each version is larger than the one before it, and than `v`.
abbrev pub IsAscending : ℕ → List Migration → Type 0
IsAscending v [] = Unit
IsAscending v (m ∷ ms) = (v < m.version) × IsAscending m.version ms

abbrev Absent : ℕ → List ℕ → Type 0
Absent v seen = any (λ s. s == v) seen ≡ false

-- Positive versions, each of one migration.
abbrev IsDistinct : List Migration → Type 0
IsDistinct [] = Unit
IsDistinct (m ∷ ms) = (0 < m.version) × All (λ n. n.version ≢ m.version) ms × IsDistinct ms

All-map :
    (P Q : Migration → Type 0) (ms : List Migration)
    → ((m : Migration) → P m → Q m)
    → All P ms
    → All Q ms
All-map P Q [] k h = tt
All-map P Q (m ∷ ms) k (a, h) = (k m a, All-map P Q ms k h)

parse_version_positive : (name : Bytes) {v : ℕ} → parse_version name ≡ ok v → 0 < v
unfolding parse_version
parse_version_positive name {v} h =
    chain_ok _ _ h λ num cut h1. version_of_positive (parse_int num) h1
  where
    version_of_positive : (o : Option ℤ) → version_of o ≡ ok v → 0 < v
    version_of_positive o h' = ground arith

Absent-cons : (v w : ℕ) (seen : List ℕ) → Absent w (v ∷ seen) → (w ≢ v) × Absent w seen
Absent-cons v w seen h = (ground (arith, eq_iff v w), ground (arith, eq_iff v w))

read_entries_ok :
    (seen : List ℕ) (es : List (Bytes × Bytes)) {ms : List Migration}
    → read_entries seen es ≡ ok ms
    → All (λ m. Absent m.version seen) ms × IsDistinct ms × (length ms ≡ length es)
unfolding read_entries
read_entries_ok seen [] {ms} h = rw (← ok-injective h) (tt, tt, refl)
read_entries_ok seen ((name, body) ∷ es) {ms} h = chain_ok _ _ h λ v parsed h1.
    chain_ok _ _ h1 λ _ new h2. chain_ok _ _ h2 λ rest read h3.
      let (absent, distinct, size) = read_entries_ok (v ∷ seen) es read in
      rw (← ok-injective h3) (
        (fail_if_ok _ _ new, All-map _ _ rest (λ m a. (Absent-cons v m.version seen a).1) absent),
        (
          parse_version_positive name parsed,
          All-map _ _ rest (λ m a. (Absent-cons v m.version seen a).0) absent,
          distinct,
        ),
        ap suc size,
      )

insert-IsAscending :
    (v : ℕ) (m : Migration) (ms : List Migration)
    → v < m.version
    → All (λ n. n.version ≢ m.version) ms
    → IsAscending v ms
    → IsAscending v (insert_migration m ms)
unfolding insert_migration
insert-IsAscending v m [] low fresh h = (low, tt)
insert-IsAscending v m (n ∷ ns) low (other, fresh) (first, rest) =
    elim (Bool-cases (ltb m.version n.version)) [
      | inl before ↦ rw (before) (low, (ltb→lt m.version n.version before, rest))
      | inr after ↦
          rw (after)
            (first, insert-IsAscending n.version m ns (ground (arith, other, after)) fresh rest)
    ]

All-insert :
    (P : Migration → Type 0) (m : Migration) (ms : List Migration)
    → P m
    → All P ms
    → All P (insert_migration m ms)
unfolding insert_migration
All-insert P m [] a h = (a, tt)
All-insert P m (n ∷ ns) a (b, h) = elim (Bool-cases (ltb m.version n.version)) [
  | inl before ↦ rw (before) (a, (b, h))
  | inr after ↦ rw (after) (b, All-insert P m ns a h)
]

pub All-sort :
    (P : Migration → Type 0) (ms : List Migration) → All P ms → All P (sort_migrations ms)
unfolding sort_migrations
All-sort P [] h = tt
All-sort P (m ∷ ms) (a, h) = All-insert P m (sort_migrations ms) a (All-sort P ms h)

sort-IsAscending : (ms : List Migration) → IsDistinct ms → IsAscending 0 (sort_migrations ms)
unfolding sort_migrations
sort-IsAscending [] h = tt
sort-IsAscending (m ∷ ms) (positive, fresh, h) =
    insert-IsAscending 0 m (sort_migrations ms) positive (All-sort _ ms fresh)
      (sort-IsAscending ms h)

length-insert :
    (m : Migration) (ms : List Migration) → length (insert_migration m ms) ≡ suc (length ms)
unfolding insert_migration
length-insert m [] = refl
length-insert m (n ∷ ns) = elim (Bool-cases (ltb m.version n.version)) [
  | inl before ↦ rw (before) refl
  | inr after ↦ rw (after) (ap suc (length-insert m ns))
]

length-sort : (ms : List Migration) → length (sort_migrations ms) ≡ length ms
unfolding sort_migrations
length-sort [] = refl
length-sort (m ∷ ms) = length-insert m (sort_migrations ms) ∙ ap suc (length-sort ms)

-- The migrations that are loaded have positive versions that rise strictly from one to the next,
-- and are as many as the files.
pub load_migrations-IsAscending :
    (entries : List (Bytes × Bytes)) {ms : List Migration}
    → load_migrations entries ≡ ok ms
    → IsAscending 0 ms × (length ms ≡ length entries)
unfolding load_migrations
load_migrations-IsAscending entries {ms} h = chain_ok _ _ h λ read got h1.
    let (_, distinct, size) = read_entries_ok [] entries got in
    rw (← ok-injective h1) (sort-IsAscending read distinct, length-sort read ∙ size)
