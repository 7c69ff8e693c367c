-- ===== src/Database/Migrations/Rerun.antt =====
-- What a second run of the migrations does.
use securevault.Database.Migrations.Prefix.{apply_all-IsPrefix, run_scripts, pending}
use securevault.Database.Migrations.{
  load_migrations, apply_loaded, migrate, current_version, Schema, Migration, apply_all,
}
use mathlib.Core.Path.{subst}
use securevault.Base.{
  ltb, leb, Bool-cases, nat_eq, string_eq, Bytes, bytes_eq, length, take, All, Result, ok, err, ℕ,
  ◌≤◌, ◌≡◌, refl, ap, inl, inr, Bool, true, false, ◌||◌, Option, none, some, List, [], ◌∷◌, arith,
}

module _ {S : Type 0} (exec : Bytes → S → Option S) where
  -- Every version up to the current one is in no need of a run.
  apply_all-eq_of_old :
      (fails : ℕ → Bool) (t current before : ℕ) (ms : List Migration) (s : Schema S)
      → All (λ m. m.version ≤ current) ms
      → apply_all exec fails t current before ms s
        ≡ record { applied = before; failed = false; schema = s }
  unfolding apply_all
  apply_all-eq_of_old fails t current before [] s h = refl
  apply_all-eq_of_old fails t current before (m ∷ ms) s (old, h) =
      let behind : leb m.version current ≡ true = ground (arith, old) in
      rw (behind, apply_all) (apply_all-eq_of_old fails t current before ms s h)

  -- After a run that did not fail, no version is beyond the largest row of schema_version.
  run_scripts-current :
      (ms : List Migration) (s : Schema S) {s' : Schema S}
      → run_scripts exec ms s ≡ some s'
      → (current_version s.versions ≤ current_version s'.versions)
        × All (λ m. m.version ≤ current_version s'.versions) ms
  run_scripts-current [] s {s'} h = let same : s ≡ s' = cc h in (rw (same) (omega arith), tt)
  run_scripts-current (m ∷ ms) s {s'} h =
      go (λ s1. run_scripts-current ms s1) (exec m.sql s.tables) h
    where
      go :
          ((s1 : Schema S)
            → run_scripts exec ms s1 ≡ some s'
            → (current_version s1.versions ≤ current_version s'.versions)
              × All (λ m. m.version ≤ current_version s'.versions) ms)
          → (o : Option S)
          → (elim o [
            | none ↦ none
            | some tables ↦
                run_scripts exec ms (record { tables = tables; versions = m.version ∷ s.versions })
          ])
            ≡ some s'
          → (current_version s.versions ≤ current_version s'.versions)
            × ((m.version ≤ current_version s'.versions)
                × All (λ m. m.version ≤ current_version s'.versions) ms)
      go k none h' = absurd (cc h')
      go k (some tables) h' =
          let (more, rest) = k (record { tables = tables; versions = m.version ∷ s.versions }) h' in
          (omega (arith, more), (omega (arith, more), rest))

  take-length {ℓ} : {A : Type ℓ} (xs : List A) → take (length xs) xs ≡ xs
  take-length [] = refl
  take-length (x ∷ xs) = ap (λ ys. x ∷ ys) (take-length xs)

  pending-current :
      (low high : ℕ) (ms : List Migration)
      → low ≤ high
      → All (λ m. m.version ≤ high) (pending low ms)
      → All (λ m. m.version ≤ high) ms
  pending-current low high [] le h = tt
  pending-current low high (m ∷ ms) le h = elim (Bool-cases (ltb low m.version)) [
    | inl ahead ↦
        let (first, rest) = rw (ahead) at h in (first, pending-current low high ms le rest)
    | inr behind ↦
        let rest = rw (behind) at h in
        (ground (arith, behind, le), pending-current low high ms le rest)
  ]

  apply_all-current :
      (fails : ℕ → Bool) (t : ℕ) (ms : List Migration) (s : Schema S)
      → (apply_all exec fails t (current_version s.versions) 0 ms s).failed ≡ false
      → All
          (λ m.
            m.version
            ≤ current_version
                (apply_all exec fails t (current_version s.versions) 0 ms s).schema.versions)
          ms
  apply_all-current fails t ms s h =
      let todo = pending (current_version s.versions) ms in
      let r = apply_all-IsPrefix exec fails t (current_version s.versions) 0 ms s in
      let all_ran =
        subst
          (λ n.
            run_scripts exec (take n todo) s
            ≡ some (apply_all exec fails t (current_version s.versions) 0 ms s).schema)
          (r.complete h) r.ran in
      let (more, done) =
        run_scripts-current todo s
          {s' = (apply_all exec fails t (current_version s.versions) 0 ms s).schema}
          (rw (← take-length todo) all_ran) in
      pending-current (current_version s.versions) _ ms more done

  apply_loaded-again :
      (fails again : ℕ → Bool) (r : Result (List Migration)) (s : Schema S)
      → (apply_loaded exec fails r s).failed ≡ false
      → apply_loaded exec again r (apply_loaded exec fails r s).schema
        ≡ record { applied = 0; failed = false; schema = (apply_loaded exec fails r s).schema }
  unfolding apply_loaded
  apply_loaded-again fails again (err e) s h = absurd (cc h)
  apply_loaded-again fails again (ok ms) s h =
      apply_all-eq_of_old again 4 _ 0 ms _ (apply_all-current fails 4 ms s h)

  -- After a run that did not fail, a second run with the same files applies no migration and leaves
  -- the database as it is, whatever calls fail in it.
  pub migrate-again :
      (fails again : ℕ → Bool) (entries : List (Bytes × Bytes)) (s : Schema S)
      → (migrate exec fails entries s).failed ≡ false
      → ((migrate exec again entries (migrate exec fails entries s).schema).applied ≡ 0)
        × ((migrate exec again entries (migrate exec fails entries s).schema).schema
            ≡ (migrate exec fails entries s).schema)
  unfolding migrate
  migrate-again fails again entries s h =
      elim (Bool-cases (fails 0 || fails 1 || fails 2 || fails 3)) [
        | inl down ↦ absurd (ground (arith, down, h))
        | inr up ↦ rw (up) (elim (Bool-cases (again 0 || again 1 || again 2 || again 3)) [
          | inl down ↦ rw (down) (refl, refl)
          | inr up' ↦
              rw (up', apply_loaded-again fails again (load_migrations entries) s (rw (up) at h))
                (refl, refl)
        ])
      ]
