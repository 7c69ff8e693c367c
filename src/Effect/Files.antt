-- ===== src/Effect/Files.antt =====
-- Calls of the database, against what holds of the tables together with the files.
use securevault.Effect.Runs.{call_ok}
use securevault.Effect.Bind.{bind_cases}
use securevault.Database.Schema.{Db}
use securevault.Effect.Keeps.{Keeps-pure, Keeps-bind, Keeps-call, keeps_rules, Keeps}
use securevault.Effect.{
  settle, tick, M, World, pure, Statement, call, write_back, in_transaction, query, transaction,
  run, ◌>>=◌, ◌>>◌,
}
use mathlib.Core.Path.{subst}
use securevault.Base.{
  nat_eq, string_eq, Bytes, bytes_eq, Result, ok, err, ℕ, ◌≡◌, refl, sym, Bool, List,
}
use securevault.Platform.{Platform}

module _ (p : Platform) (F : List (Bytes × Bytes) → List (ℕ × Bool) → Type 0) where
  pub call-Keeps : Keeps (λ w. F w.disk w.done) (call p)
  call-Keeps = Keeps-call p λ w h. h

  write_back-Keeps :
      {A : Type 0} (r : Result (A × Db)) → Keeps (λ w. F w.disk w.done) (write_back r)
  unfolding write_back
  write_back-Keeps (ok (a, d)) = record { at = λ w h. h }
  write_back-Keeps (err e) = record { at = λ w h. h }

  -- No statement and no query changes a file.
  pub run-Keeps : {A : Type 0} (s : Statement A) → Keeps (λ w. F w.disk w.done) (run p s)
  unfolding run
  run-Keeps s = search (keeps_rules, call-Keeps, write_back-Keeps) depth 8

  pub query-Keeps : {A : Type 0} (f : Db → A) → Keeps (λ w. F w.disk w.done) (query p f)
  unfolding query
  query-Keeps f = search (keeps_rules, call-Keeps) depth 8

  settle-files :
      {A : Type 0} (d : Db) (x : Result A × World)
      → F x.1.disk x.1.done
      → F (settle d x).1.disk (settle d x).1.done
  settle-files d (ok a, w) h = h
  settle-files d (err e, w) h = h

  in_transaction-Keeps :
      {A : Type 0} (m : M A)
      → Keeps (λ w. F w.disk w.done) m
      → Keeps (λ w. F w.disk w.done) (in_transaction p m)
  unfolding in_transaction
  in_transaction-Keeps m k =
      Keeps-bind _ _ call-Keeps
        λ _. Keeps-bind _ _ k λ a. Keeps-bind _ _ call-Keeps λ _. Keeps-pure a

  -- A transaction leaves the files to its body, committed or rolled back.
  pub transaction-Keeps :
      {A : Type 0} (m : M A)
      → Keeps (λ w. F w.disk w.done) m
      → Keeps (λ w. F w.disk w.done) (transaction p m)
  unfolding transaction
  transaction-Keeps m k = record {
    at = λ w h. settle-files w.db (in_transaction p m w) ((in_transaction-Keeps m k).at w h);
  }

module _ (p : Platform) (P : Db → List (Bytes × Bytes) → Type 0) where
  in_transaction_with :
      {A : Type 0} (m : M A) (w : World)
      → P w.db w.disk
      → P w.db (m (tick w)).1.disk
      → ((a : A) (w2 : World) → m (tick w) ≡ (ok a, w2) → P w2.db w2.disk)
      → P (settle w.db (in_transaction p m w)).1.db (settle w.db (in_transaction p m w)).1.disk
  unfolding in_transaction pure
  in_transaction_with {A} m w start weak strong =
      bind_cases Q _ _ w
        (λ _ w1 begun.
          subst (λ v. Q ((m >>= λ a. (call p >> pure a)) v)) (sym (call_ok p w begun)) body)
        (λ e w1 failed.
          subst (λ (x : Result (Unit {0}) × World). P w.db x.1.disk) failed
            ((Keeps-call {I = λ v. P w.db v.disk} p λ v h. h).at w start))
    where
      Q : {B : Type 0} → Result B × World → Type 0
      Q x = P (settle w.db x).1.db (settle w.db x).1.disk

      ended : (a : A) (w2 : World) → m (tick w) ≡ (ok a, w2) → Q ((call p >> pure a) w2)
      ended a w2 ran =
          bind_cases Q _ _ w2
            (λ _ w3 called.
              subst (λ (v : World). P v.db v.disk) (sym (call_ok p w2 called)) (strong a w2 ran))
            (λ e w3 failed.
              subst (λ (x : Result (Unit {0}) × World). P w.db x.1.disk) failed
                ((Keeps-call {I = λ v. P w.db v.disk} p λ v h. h).at w2
                  (subst (λ (x : Result A × World). P w.db x.1.disk) ran weak)))

      body : Q ((m >>= λ a. (call p >> pure a)) (tick w))
      body =
          bind_cases Q m _ (tick w) ended
            (λ e w2 failed. subst (λ (x : Result A × World). P w.db x.1.disk) failed weak)

  -- What the body keeps with the old tables, and establishes with the new ones, holds after the
  -- transaction, however that ends.
  pub transaction_with :
      {A : Type 0} (m : M A) (w : World)
      → P w.db w.disk
      → P w.db (m (tick w)).1.disk
      → ((a : A) (w2 : World) → m (tick w) ≡ (ok a, w2) → P w2.db w2.disk)
      → P (transaction p m w).1.db (transaction p m w).1.disk
  unfolding transaction
  transaction_with = in_transaction_with

  -- A statement that keeps what holds of the tables and the disk, each time that it succeeds.
  pub Keeps-run :
      {A : Type 0} (s : Statement A)
      → ((d : Db) (disk : List (Bytes × Bytes)) (a : A) (d' : Db)
          → P d disk
          → s d ≡ ok (a, d')
          → P d' disk)
      → Keeps (λ w. P w.db w.disk) (run p s)
  unfolding run ◌>>=◌ write_back
  Keeps-run {A} s k =
      Keeps-bind _ _ (Keeps-call p λ w h. h) λ _. record { at = λ w h. written w (s w.db) refl h }
    where
      written :
          (w : World) (r : Result (A × Db))
          → s w.db ≡ r
          → P w.db w.disk
          → P (write_back r w).1.db (write_back r w).1.disk
      written w (ok (a, d)) e h = k w.db w.disk a d h e
      written w (err x) e h = h
