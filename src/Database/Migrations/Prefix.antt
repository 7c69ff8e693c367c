-- ===== src/Database/Migrations/Prefix.antt =====
-- What a run of the migrations leaves.
use securevault.Database.Migrations.{Outcome, Schema, apply_one, Migration, apply_all}
use mathlib.Core.Path.{subst}
use securevault.Base.Chain.{ok-injective, or_error_ok, chain_ok}
use securevault.Base.{
  ltb, leb, Bool-cases, nat_eq, string_eq, Bytes, bytes_eq, length, take, keep, Result, ok, err, ℕ,
  suc, ◌+◌, ◌≤◌, ◌≡◌, refl, sym, ap, inl, inr, Bool, true, false, Option, none, some, List, [], ◌∷◌,
  arith,
}

abbrev pub pending : ℕ → List Migration → List Migration
pending current ms = keep (λ m. ltb current m.version) ms

module _ {S : Type 0} (exec : Bytes → S → Option S) where
  -- The scripts of some migrations, one after another, and their rows of schema_version.
  abbrev pub run_scripts : List Migration → Schema S → Option (Schema S)
  run_scripts [] s = some s
  run_scripts (m ∷ ms) s = elim (exec m.sql s.tables) [
    | none ↦ none
    | some tables ↦ run_scripts ms (record { tables = tables; versions = m.version ∷ s.versions })
  ]

  -- The first `count` pending migrations were applied, all of them if the run did not fail.
  pub record IsPrefix (todo : List Migration) (s : Schema S) (before : ℕ) (o : Outcome S)
      : Type 0 where
    pub count : ℕ
    pub few : count ≤ length todo
    pub number : o.applied ≡ before + count
    pub complete : o.failed ≡ false → count ≡ length todo
    pub ran : run_scripts (take count todo) s ≡ some o.schema

  module _ (fails : ℕ → Bool) where
    apply_one_ok :
        (t : ℕ) (m : Migration) (s : Schema S) {s' : Schema S}
        → apply_one exec fails t m s ≡ ok s'
        → (tables : S) × (exec m.sql s.tables ≡ some tables)
          × (s' ≡ record { tables = tables; versions = m.version ∷ s.versions })
    unfolding apply_one
    apply_one_ok t m s h = chain_ok _ _ h λ _ begun h1. chain_ok _ _ h1 λ tables ran h2.
        chain_ok _ _ h2 λ _ inserted h3.
          chain_ok _ _ h3 λ _ committed h4. (tables, or_error_ok _ _ ran, sym (ok-injective h4))

    -- Whatever calls fail, what the loop over the migrations leaves is what the scripts of the
    -- first pending ones leave when they run one after another, each with its row of
    -- schema_version; the number that is returned counts them, and without a failure they are all
    -- of the pending ones.
    pub apply_all-IsPrefix :
        (t current before : ℕ) (ms : List Migration) (s : Schema S)
        → IsPrefix (pending current ms) s before (apply_all exec fails t current before ms s)
    unfolding apply_all
    apply_all-IsPrefix t current before [] s = record {
      count = 0;
      few = omega arith;
      number = omega arith;
      complete = λ _. refl;
      ran = refl;
    }
    apply_all-IsPrefix t current before (m ∷ ms) s = elim (Bool-cases (leb m.version current)) [
      | inl old ↦
          let behind : ltb current m.version ≡ false = ground (arith, old) in
          rw (old, behind, apply_all) (apply_all-IsPrefix t current before ms s)
      | inr new ↦
          let ahead : ltb current m.version ≡ true = ground (arith, new) in
          rw (new, ahead, apply_all)
            (stepped (λ s'. apply_all-IsPrefix (t + 4) current (suc before) ms s')
              (apply_one exec fails t m s) refl)
    ]
      where
        stepped :
            ((s' : Schema S)
              → IsPrefix
                  (pending current ms)
                  s'
                  (suc before)
                  (apply_all exec fails (t + 4) current (suc before) ms s'))
            → (r : Result (Schema S)) → apply_one exec fails t m s ≡ r
            → IsPrefix (m ∷ pending current ms) s before (elim r [
              | err e ↦ record { applied = before; failed = true; schema = s }
              | ok s' ↦ apply_all exec fails (t + 4) current (suc before) ms s'
            ])
        stepped k (err e) h = record {
          count = 0;
          few = omega arith;
          number = omega arith;
          complete = λ h'. absurd (cc h');
          ran = refl;
        }
        stepped k (ok s') h =
            let (tables, scripted, s_eq) = apply_one_ok t m s h in
            let r = k s' in
            record {
              count = suc r.count;
              few = omega (arith, r.few);
              number = omega (arith, r.number);
              complete = λ h'. ap suc (r.complete h');
              ran = rw (scripted) (
                  subst
                    (λ s1.
                      run_scripts (take r.count (pending current ms)) s1
                      ≡ some (apply_all exec fails (t + 4) current (suc before) ms s').schema)
                    s_eq r.ran);
            }
