-- ===== src/Effect/Bind.antt =====
-- Taking a chain of calls apart at its first call.
use securevault.Base.{
  nat_eq, string_eq, bytes_eq, Error, Result, ok, err, ◌≡◌, refl, ap, ◌∙◌, ◌≢◌, Bool, true, false,
  Option, none, some,
}
use securevault.Effect.{
  finally, lift, or_raise, handle, rescue, ignore, gets, modify, continue, ◌>>◌, recover, M, World,
  ◌>>=◌, raise_if, on_error,
}

-- A chain that returned has a first call that returned.
pub bind_ok {ℓ} :
    {A B : Type 0} {C : Type ℓ} (m : M A) (f : A → M B) (w : World) {b : B} {w'' : World}
    → (m >>= f) w ≡ (ok b, w'')
    → ((a : A) (w' : World) → m w ≡ (ok a, w') → f a w' ≡ (ok b, w'') → C)
    → C
unfolding ◌>>=◌
bind_ok {A} {B} {C} m f w {b} {w''} h k = go (m w) refl h
  where
    go : (x : Result A × World) → m w ≡ x → continue f x ≡ (ok b, w'') → C
    go (ok a, w') e h' = k a w' e h'
    go (err _, w') e h' = absurd (cc h')

-- A chain behind an early return that returned did not take it.
pub pass_ok {ℓ} :
    {B : Type 0} {C : Type ℓ} (c : Bool) (x : Error) (m : M B) (w : World) {b : B} {w'' : World}
    → (raise_if c x >> m) w ≡ (ok b, w'')
    → (c ≡ false → m w ≡ (ok b, w'') → C)
    → C
unfolding ◌>>=◌
pass_ok true x m w h k = absurd (cc h)
pass_ok false x m w h k = k refl h

-- What holds of a chain holds if it holds after the first call, however that ended.
pub bind_cases {ℓ} :
    {A B : Type 0} (Q : Result B × World → Type ℓ) (m : M A) (f : A → M B) (w : World)
    → ((a : A) (w' : World) → m w ≡ (ok a, w') → Q (f a w'))
    → ((e : Error) (w' : World) → m w ≡ (err e, w') → Q (err e, w'))
    → Q ((m >>= f) w)
unfolding ◌>>=◌
bind_cases {A} {B} Q m f w good bad = go (m w) refl
  where
    go : (x : Result A × World) → m w ≡ x → Q (continue f x)
    go (ok a, w') e = good a w' e
    go (err x, w') e = bad x w' e

pub on_error-eq-ok :
    {A : Type 0} (c : M (Unit {0})) (g : Error → Error) (m : M A) (w : World) {a : A} {w' : World}
    → on_error c g m w ≡ (ok a, w')
    → m w ≡ (ok a, w')
unfolding on_error
on_error-eq-ok {A} c g m w {a} {w'} h = go (m w) refl h
  where
    go : (x : Result A × World) → m w ≡ x → recover c g x ≡ (ok a, w') → m w ≡ (ok a, w')
    go (ok b, w1) e h' = e ∙ h'
    go (err _, w1) e h' = absurd (cc h')

pub pass_cases {ℓ} :
    {B : Type 0} (Q : Result B × World → Type ℓ) (c : Bool) (x : Error) (m : M B) (w : World)
    → (c ≡ true → Q (err x, w))
    → (c ≡ false → Q (m w))
    → Q ((raise_if c x >> m) w)
unfolding ◌>>=◌
pass_cases Q true x m w bad good = bad refl
pass_cases Q false x m w bad good = good refl

-- Where every error is replaced by one error, that is the error.
pub on_error-eq-err :
    {A : Type 0} (c : M (Unit {0})) (x : Error) (m : M A) (w : World) {e : Error} {w' : World}
    → on_error c (λ _. x) m w ≡ (err e, w')
    → e ≡ x
unfolding on_error
on_error-eq-err {A} c x m w {e} {w'} h = go (m w) h
  where
    go : (r : Result A × World) → recover c (λ _. x) r ≡ (err e, w') → e ≡ x
    go (ok b, w1) h' = absurd (cc h')
    go (err _, w1) h' = cc h'

-- A call that is known to return, and one that is known to fail.
pub bind-eq_of_ok :
    {A B : Type 0} (m : M A) (f : A → M B) (w : World) {a : A} {w' : World}
    → m w ≡ (ok a, w')
    → (m >>= f) w ≡ f a w'
unfolding ◌>>=◌
bind-eq_of_ok m f w h = ap (continue f) h

pub bind-eq_of_err :
    {A B : Type 0} (m : M A) (f : A → M B) (w : World) {e : Error} {w' : World}
    → m w ≡ (err e, w')
    → (m >>= f) w ≡ (err e, w')
unfolding ◌>>=◌
bind-eq_of_err m f w h = ap (continue f) h

pub pass-eq_of_false :
    {B : Type 0} (c : Bool) (x : Error) (m : M B) (w : World)
    → c ≡ false
    → (raise_if c x >> m) w ≡ m w
unfolding ◌>>=◌
pass-eq_of_false c x m w h = rw h

pub pass-eq_of_true :
    {B : Type 0} (c : Bool) (x : Error) (m : M B) (w : World)
    → c ≡ true
    → (raise_if c x >> m) w ≡ (err x, w)
unfolding ◌>>=◌
pass-eq_of_true c x m w h = rw h

pub on_error-eq_of_ok :
    {A : Type 0} (c : M (Unit {0})) (g : Error → Error) (m : M A) (w : World) {a : A} {w' : World}
    → m w ≡ (ok a, w')
    → on_error c g m w ≡ (ok a, w')
unfolding on_error
on_error-eq_of_ok c g m w h = ap (recover c g) h

-- What the small calls return.
pub gets_ok :
    {A : Type 0} (f : World → A) (w : World) {a : A} {w' : World}
    → gets f w ≡ (ok a, w')
    → (a ≡ f w) × (w' ≡ w)
unfolding gets
gets_ok f w h = (cc, cc)

pub modify_ok :
    (f : World → World) (w : World) {a : Unit {0}} {w' : World} → modify f w ≡ (ok a, w') → w' ≡ f w
unfolding modify
modify_ok f w h = cc

pub ignore_ok :
    {A : Type 0} (m : M A) (w : World) {a : Unit {0}} {w' : World}
    → ignore m w ≡ (ok a, w')
    → w' ≡ (m w).1
unfolding ignore
ignore_ok m w h = cc

-- Where an error leads to another error only, a rescued call that returned did so by itself.
pub rescue_ok :
    {A : Type 0} (f : Error → M A) (m : M A) (w : World) {a : A} {w' : World}
    → ((e : Error) (w1 : World) (a : A) (w' : World) → f e w1 ≢ (ok a, w'))
    → rescue f m w ≡ (ok a, w')
    → m w ≡ (ok a, w')
unfolding rescue
rescue_ok {A} f m w {a} {w'} fails h = go (m w) h
  where
    go : (x : Result A × World) → handle f x ≡ (ok a, w') → x ≡ (ok a, w')
    go (ok b, w1) h' = h'
    go (err e, w1) h' = absurd (fails e w1 _ _ h')

pub or_raise_ok :
    {A : Type 0} (o : Option A) (e : Error) (w : World) {a : A} {w' : World}
    → or_raise o e w ≡ (ok a, w')
    → (o ≡ some a) × (w' ≡ w)
unfolding or_raise ◌>>=◌
or_raise_ok none e w h = absurd (cc h)
or_raise_ok (some a) e w h = (cc, cc)

pub lift_ok :
    {A : Type 0} (r : Result A) (w : World) {a : A} {w' : World}
    → lift r w ≡ (ok a, w')
    → (r ≡ ok a) × (w' ≡ w)
unfolding lift
lift_ok r w h = (cc, cc)

-- A deferred cleanup runs after the end, and does not change the result.
pub finally_ok {ℓ} :
    {A : Type 0} {C : Type ℓ} (c : M (Unit {0})) (m : M A) (w : World) {a : A} {w' : World}
    → finally c m w ≡ (ok a, w')
    → ((w1 : World) → m w ≡ (ok a, w1) → w' ≡ (c w1).1 → C)
    → C
unfolding finally
finally_ok c m w {a} {w'} h k =
    let did : m w ≡ (ok a, (m w).1) = cc h in
    let after : w' ≡ (c (m w).1).1 = cc h in k (m w).1 did after

-- The results alone, whatever the world after them.
pub bind_returns :
    {A B : Type 0} (m : M A) (f : A → M B) (w : World) {a : A} {b : B}
    → (m w).0 ≡ ok a
    → ((w' : World) → (f a w').0 ≡ ok b)
    → ((m >>= f) w).0 ≡ ok b
unfolding ◌>>=◌
bind_returns {A} {B} m f w {a} {b} h k = go (m w) h
  where
    go : (x : Result A × World) → x.0 ≡ ok a → (continue f x).0 ≡ ok b
    go (ok c, w') e = cc (k w')
    go (err e, w') e' = absurd (cc e')

pub rescue_returns :
    {A : Type 0} (f : Error → M A) (m : M A) (w : World) {a : A}
    → (m w).0 ≡ ok a
    → (rescue f m w).0 ≡ ok a
unfolding rescue
rescue_returns {A} f m w {a} h = go (m w) h
  where
    go : (x : Result A × World) → x.0 ≡ ok a → (handle f x).0 ≡ ok a
    go (ok c, w') e = e
    go (err e, w') e' = absurd (cc e')
