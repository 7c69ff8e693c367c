-- ===== src/Effect/RollsBack.antt =====
-- Calls that, where they fail, leave the tables as they found them.
use securevault.Effect.Bind.{bind_cases}
use securevault.Base.{
  if◌then◌else◌, nat_eq, string_eq, bytes_eq, Error, Result, ok, err, ◌≡◌, refl, sym, ap, ◌∙◌, ◌≢◌,
  Bool, true, false,
}
use securevault.Platform.{Platform}
use securevault.Effect.{
  attempt, gets, raise, transaction, rescue, Db, finally, pure, M, World, ◌>>=◌, settle, handle,
}
use securevault.Effect.Keeps.{Keeps}

pub record RollsBack {A : Type 0} (m : M A) : Type 0 where
  pub at : (w : World) (e : Error) (w' : World) → m w ≡ (err e, w') → w'.db ≡ w.db

-- A call that changes no table at all.
pub record Steady {A : Type 0} (m : M A) : Type 0 where
  pub at : (w : World) → (m w).1.db ≡ w.db

-- A call that does not fail.
pub record Sure {A : Type 0} (m : M A) : Type 0 where
  pub at : (w : World) (e : Error) (w' : World) → m w ≢ (err e, w')

module _ {A : Type 0} where
  pub Steady-of_Keeps : (m : M A) → ((d : Db) → Keeps (λ w. w.db ≡ d) m) → Steady m
  Steady-of_Keeps m k = record { at = λ w. (k w.db).at w refl }

  pub Steady-eq :
      (m : M A) (w : World) {r : Result A} {w' : World} → Steady m → m w ≡ (r, w') → w'.db ≡ w.db
  Steady-eq m w s h = sym (ap (λ (x : Result A × World). x.1.db) h) ∙ s.at w

  pub RollsBack-of_Steady : (m : M A) → Steady m → RollsBack m
  RollsBack-of_Steady m s = record {
    at = λ w e w' h. sym (ap (λ (x : Result A × World). x.1.db) h) ∙ s.at w;
  }

  pub Sure-pure : (a : A) → Sure (pure a)
  unfolding pure
  Sure-pure a = record { at = λ w e w' h. absurd (cc h) }

  pub RollsBack-raise : (x : Error) → RollsBack (raise {A = A} x)
  unfolding raise
  RollsBack-raise x = record { at = λ w e w' h. cc h }

  pub RollsBack-if :
      (b : Bool) (m n : M A) → RollsBack m → RollsBack n → RollsBack (if b then m else n)
  RollsBack-if true m n k l = k
  RollsBack-if false m n k l = l

  handled :
      (f : Error → M A) (w : World) (x : Result A × World)
      → ((e : Error) → RollsBack (f e))
      → ((e : Error) (w1 : World) → x ≡ (err e, w1) → w1.db ≡ w.db)
      → (e : Error) (w' : World) → handle f x ≡ (err e, w')
      → w'.db ≡ w.db
  handled f w (ok a, w1) k l e w' h = absurd (cc h)
  handled f w (err x, w1) k l e w' h = (k x).at w1 e w' h ∙ l x w1 refl

  pub RollsBack-rescue :
      (f : Error → M A) (m : M A)
      → ((e : Error) → RollsBack (f e))
      → RollsBack m
      → RollsBack (rescue f m)
  unfolding rescue
  RollsBack-rescue f m k l = record { at = λ w e w' h. handled f w (m w) k (l.at w) e w' h }

  pub RollsBack-finally :
      (c : M (Unit {0})) (m : M A) → Steady c → RollsBack m → RollsBack (finally c m)
  unfolding finally
  RollsBack-finally c m s k = record {
    at = λ w e w' h.
        sym (ap (λ (x : Result A × World). x.1.db) h) ∙ (s.at (m w).1 ∙ k.at w e (m w).1 (cc h));
  }

module _ {A B : Type 0} where
  -- A first call that changes no table, and a rest that rolls back.
  pub RollsBack-bind :
      (m : M A) (f : A → M B) → Steady m → ((a : A) → RollsBack (f a)) → RollsBack (m >>= f)
  RollsBack-bind m f s k = record {
    at = λ w.
        bind_cases (λ x. (e : Error) (w' : World) → x ≡ (err e, w') → w'.db ≡ w.db) m f w
          (λ a w1 did e w' h.
            (k a).at w1 e w' h ∙ (sym (ap (λ (x : Result A × World). x.1.db) did) ∙ s.at w))
          (λ x w1 failed e w' h. cc (h, (RollsBack-of_Steady m s).at w x w1 failed));
  }

  -- A first call that rolls back, and a rest that does not fail.
  pub RollsBack-bind-Sure :
      (m : M A) (f : A → M B) → RollsBack m → ((a : A) → Sure (f a)) → RollsBack (m >>= f)
  RollsBack-bind-Sure m f s k = record {
    at = λ w.
        bind_cases (λ x. (e : Error) (w' : World) → x ≡ (err e, w') → w'.db ≡ w.db) m f w
          (λ a w1 did e w' h. absurd ((k a).at w1 e w' h))
          (λ x w1 failed e w' h. cc (h, s.at w x w1 failed));
  }

  pub Sure-bind : (m : M A) (f : A → M B) → Sure m → ((a : A) → Sure (f a)) → Sure (m >>= f)
  Sure-bind m f s k = record {
    at = λ w.
        bind_cases (λ x. (e : Error) (w' : World) → x ≢ (err e, w')) m f w
          (λ a w1 did e w' h. (k a).at w1 e w' h) (λ x w1 failed e w' h. s.at w x w1 failed);
  }

module _ (p : Platform) where
  settle_err :
      {A : Type 0} (d : Db) (x : Result A × World) (e : Error) (w' : World)
      → settle d x ≡ (err e, w')
      → w'.db ≡ d
  settle_err d (ok a, w) e w' h = absurd (cc h)
  settle_err d (err x, w) e w' h = sym (ap (λ (y : Result _ × World). y.1.db) h)

  pub RollsBack-transaction : {A : Type 0} (m : M A) → RollsBack (transaction p m)
  unfolding transaction
  RollsBack-transaction m = record { at = λ w e w' h. settle_err w.db _ e w' h }

module _ {A B : Type 0} where
  -- A call whose error is a value does not fail.
  pub Sure-attempt :
      (m : M A) (f : Result A → M B)
      → ((a : A) → Sure (f (ok a)))
      → ((e : Error) → Sure (f (err e)))
      → Sure (attempt m >>= f)
  unfolding attempt ◌>>=◌
  Sure-attempt m f good bad = record { at = λ w e w' h. go (m w) e w' h }
    where
      go : (x : Result A × World) (e : Error) (w' : World) → f x.0 x.1 ≢ (err e, w')
      go (ok a, w1) e w' h = (good a).at w1 e w' h
      go (err x, w1) e w' h = (bad x).at w1 e w' h

module _ {A : Type 0} where
  pub Sure-if : (b : Bool) (m n : M A) → Sure m → Sure n → Sure (if b then m else n)
  Sure-if true m n k l = k
  Sure-if false m n k l = l

  pub Sure-gets : (f : World → A) → Sure (gets f)
  unfolding gets
  Sure-gets f = record { at = λ w e w' h. absurd (cc h) }
