-- ===== src/Base/Chain.antt =====
-- Chains of results: an error ends the chain.
use securevault.Base.Outcome.{Error, Result, ok, err}
use mathlib.Core.Bool.{Bool, true, false}
use mathlib.Core.Option.{Option, none, some}
use mathlib.Core.Path.{◌≡◌, refl}

infixl 5 ◌>>=◌ ◌>>◌
unfoldable pub ◌>>=◌ : {A B : Type 0} → Result A → (A → Result B) → Result B
ok a >>= f = f a
err e >>= f = err e

abbrev pub ◌>>◌ : {B : Type 0} → Result (Unit {0}) → Result B → Result B
r >> s = r >>= λ _. s

-- `if c { return err }`
abbrev pub fail_if : Bool → Error → Result (Unit {0})
fail_if true e = err e
fail_if false e = ok tt

abbrev pub or_error : {A : Type 0} → Option A → Error → Result A
or_error none e = err e
or_error (some a) e = ok a

-- A chain that has a value has a first result with a value.
pub chain_ok {ℓ} :
    {A B : Type 0} {C : Type ℓ} (r : Result A) (f : A → Result B) {b : B}
    → (r >>= f) ≡ ok b
    → ((a : A) → r ≡ ok a → f a ≡ ok b → C)
    → C
unfolding ◌>>=◌
chain_ok (ok a) f h k = k a refl h
chain_ok (err e) f h k = absurd (cc h)

pub fail_if_ok : (c : Bool) (e : Error) {a : Unit {0}} → fail_if c e ≡ ok a → c ≡ false
fail_if_ok true e h = absurd (cc h)
fail_if_ok false e h = refl

pub or_error_ok : {A : Type 0} (o : Option A) (e : Error) {a : A} → or_error o e ≡ ok a → o ≡ some a
or_error_ok none e h = absurd (cc h)
or_error_ok (some a) e h = cc h

pub ok-injective : {A : Type 0} {a b : A} → ok a ≡ ok b → a ≡ b
ok-injective h = cc h
