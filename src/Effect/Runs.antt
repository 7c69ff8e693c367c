-- ===== src/Effect/Runs.antt =====
-- What the calls of the database leave, when they returned.
use securevault.Platform.Laws.{NoFault}
use securevault.Effect.Bind.{gets_ok, bind_ok}
use mathlib.Core.Path.{subst}
use securevault.Base.{
  nat_eq, string_eq, bytes_eq, Result, ok, err, suc, ◌≡◌, refl, sym, ap, ◌∙◌, arith,
}
use securevault.Platform.{Platform}
use securevault.Effect.{
  ◌>>=◌, write_back, pure, tick, in_transaction, Db, call, transaction, run, query, M, World,
  Statement, settle,
}
use securevault.Effect.Keeps.{Keeps}

-- Two worlds whose disks are the same, and the `done` fields too.
pub record SameFiles (w w' : World) : Type 0 where
  pub disk : w'.disk ≡ w.disk
  pub done : w'.done ≡ w.done

module _ (p : Platform) where
  pub call_ok : (w : World) {a : Unit {0}} {w' : World} → call p w ≡ (ok a, w') → w' ≡ tick w
  unfolding call
  call_ok w h = ground arith

  pub query_ok :
      {A : Type 0} (f : Db → A) (w : World) {a : A} {w' : World}
      → query p f w ≡ (ok a, w')
      → (a ≡ f w.db) × (w' ≡ tick w)
  unfolding query
  query_ok f w h = bind_ok _ _ w h λ _ w1 called h1.
      let at_tick = call_ok w called in
      let (value, same) = gets_ok _ w1 h1 in (value ∙ ap (λ w. f w.db) at_tick, same ∙ at_tick)

  -- A statement that succeeded.
  pub record Ran {A : Type 0} (s : Statement A) (w : World) (a : A) (w' : World) : Type 0 where
    pub did : s w.db ≡ ok (a, w'.db)
    pub files : SameFiles w w'

  write_back_ok :
      {A : Type 0} (r : Result (A × Db)) (w : World) {a : A} {w' : World}
      → write_back r w ≡ (ok a, w')
      → (r ≡ ok (a, w'.db)) × SameFiles w w'
  unfolding write_back
  write_back_ok (ok (b, d)) w h = (cc, record { disk = cc; done = cc })
  write_back_ok (err e) w h = absurd (cc h)

  written_step :
      {A : Type 0} (r : Result (A × Db)) (w : World) {a : A} {w' : World}
      → write_back r w ≡ (ok a, w')
      → w'.step ≡ w.step
  unfolding write_back
  written_step (ok (b, d)) w h = cc
  written_step (err e) w h = absurd (cc h)

  pub run_ok :
      {A : Type 0} (s : Statement A) (w : World) {a : A} {w' : World}
      → run p s w ≡ (ok a, w')
      → Ran s w a w'
  unfolding run
  run_ok {A} s w {a} {w'} h = bind_ok _ _ w h λ _ w1 called h1. bind_ok _ _ w1 h1 λ r w2 got h2.
      let (r_eq, same) = gets_ok _ w1 got in
      let here = same ∙ call_ok w called in
      let (value, kept) = write_back_ok r w2 h2 in
      record {
        did = ap (λ w. s w.db) (sym (call_ok w called)) ∙ (sym r_eq ∙ value);
        files = record {
          disk = kept.disk ∙ ap (λ (w : World). w.disk) here;
          done = kept.done ∙ ap (λ (w : World). w.done) here;
        };
      }

  -- A call takes one step.
  pub run_step :
      {A : Type 0} (s : Statement A) (w : World) {a : A} {w' : World}
      → run p s w ≡ (ok a, w')
      → w'.step ≡ suc w.step
  unfolding run
  run_step s w h = bind_ok _ _ w h λ _ w1 called h1. bind_ok _ _ w1 h1 λ r w2 got h2.
      written_step r w2 h2 ∙ ap (λ (w : World). w.step) ((gets_ok _ w1 got).1 ∙ call_ok w called)

  settle_ok :
      {A : Type 0} (d : Db) (x : Result A × World) {a : A} {w' : World}
      → settle d x ≡ (ok a, w')
      → x ≡ (ok a, w')
  settle_ok d (ok a, w) h = h
  settle_ok d (err e, w) h = absurd (cc h)

  in_transaction_ok {ℓ} :
      {A : Type 0} {C : Type ℓ} (m : M A) (w : World) {a : A} {w' : World}
      → in_transaction p m w ≡ (ok a, w')
      → ((w2 : World) → m (tick w) ≡ (ok a, w2) → w' ≡ tick w2 → C)
      → C
  unfolding in_transaction pure
  in_transaction_ok {A} m w {a} {w'} h k = bind_ok _ _ w h λ _ w1 begun h1.
      bind_ok _ _ w1 h1 λ b w2 ran h2.
        bind_ok _ _ w2 h2
          λ _ w3 committed h3. k w2 (rw (← call_ok w begun) cc) (cc (h3, call_ok w2 committed))

  -- A transaction that returned ran its body, and committed it.
  pub transaction_ok {ℓ} :
      {A : Type 0} {C : Type ℓ} (m : M A) (w : World) {a : A} {w' : World}
      → transaction p m w ≡ (ok a, w')
      → ((w2 : World) → m (tick w) ≡ (ok a, w2) → w' ≡ tick w2 → C)
      → C
  unfolding transaction
  transaction_ok m w h k = in_transaction_ok m w (settle_ok w.db _ h) k

  settled :
      {A : Type 0} (I : Db → Type 0) (x : Result A × World) (w : World)
      → I w.db
      → ((a : A) (w' : World) → x ≡ (ok a, w') → I w'.db)
      → I (settle w.db x).1.db
  settled I (ok a, w1) w h k = k a w1 refl
  settled I (err e, w1) w h k = h

  -- Whatever the end of a transaction, the tables satisfy what they satisfied before it and what its
  -- body establishes.
  pub transaction_at :
      {A : Type 0} (I : Db → Type 0) (m : M A) (w : World)
      → I w.db
      → ((a : A) (w2 : World) → m (tick w) ≡ (ok a, w2) → I w2.db)
      → I (transaction p m w).1.db
  unfolding transaction
  transaction_at I m w h body = settled I (in_transaction p m w) w h λ a w' ran.
      in_transaction_ok m w ran
        λ w2 done same. subst (λ (w : World). I w.db) (sym same) (body a w2 done)

  pub Keeps-transaction :
      {A : Type 0} (I : Db → Type 0) (m : M A)
      → ((w : World) (a : A) (w' : World) → I w.db → m w ≡ (ok a, w') → I w'.db)
      → Keeps (λ w. I w.db) (transaction p m)
  Keeps-transaction I m body = record {
    at = λ w h. transaction_at I m w h λ a w2 ran. body (tick w) a w2 h ran;
  }

-- Where no call fails, a statement that succeeds is run, and a query reads.
module _ (p : Platform) (works : NoFault p) where
  pub run-eq_of_ok :
      {A : Type 0} (s : Statement A) (w : World) {a : A} {d : Db}
      → s w.db ≡ ok (a, d)
      → run p s w ≡ (ok a, record (tick w) { db = d })
  unfolding run call write_back ◌>>=◌
  run-eq_of_ok s w h = rw (works w.step, h) refl

  pub query-eq : {A : Type 0} (f : Db → A) (w : World) → query p f w ≡ (ok (f w.db), tick w)
  unfolding query call ◌>>=◌
  query-eq f w = rw (works w.step) refl
