-- ===== src/Effect/Keeps.antt =====
-- What a call leaves true, however it ends: one rule for each way to build a call.
use securevault.Base.{
  if◌then◌else◌, nat_eq, string_eq, bytes_eq, Fault, Error, Result, ok, err, ◌≡◌, refl, Bool, true,
  false, Option, none, some,
}
use securevault.Platform.{Platform}
use securevault.Effect.{
  handle, rescue, finally, World, M, pure, raise, gets, attempt, lift, or_raise, modify, raise_if,
  ignore, recover, on_error, continue, ◌>>=◌, tick, call_end, os_call_end, call, os_call,
}

pub record Keeps {A : Type 0} (I : World → Type 0) (m : M A) : Type 0 where
  pub at : (w : World) → I w → I (m w).1

module _ {A : Type 0} {I : World → Type 0} where
  pub Keeps-pure : (a : A) → Keeps I (pure a)
  unfolding pure
  Keeps-pure a = record { at = λ w h. h }

  pub Keeps-raise : (e : Error) → Keeps I (raise {A = A} e)
  unfolding raise
  Keeps-raise e = record { at = λ w h. h }

  pub Keeps-gets : (f : World → A) → Keeps I (gets f)
  unfolding gets
  Keeps-gets f = record { at = λ w h. h }

  pub Keeps-lift : (r : Result A) → Keeps I (lift r)
  unfolding lift
  Keeps-lift r = record { at = λ w h. h }

  pub Keeps-or_raise : (o : Option A) (e : Error) → Keeps I (or_raise o e)
  unfolding or_raise
  Keeps-or_raise none e = record { at = λ w h. h }
  Keeps-or_raise (some a) e = record { at = λ w h. h }

  pub Keeps-attempt : (m : M A) → Keeps I m → Keeps I (attempt m)
  unfolding attempt
  Keeps-attempt m k = record { at = k.at }

  pub Keeps-ignore : (m : M A) → Keeps I m → Keeps I (ignore m)
  unfolding ignore
  Keeps-ignore m k = record { at = k.at }

  pub Keeps-if : (b : Bool) (m n : M A) → Keeps I m → Keeps I n → Keeps I (if b then m else n)
  Keeps-if true m n km kn = km
  Keeps-if false m n km kn = kn

  Keeps-recover :
      (c : M (Unit {0})) (g : Error → Error) (x : Result A × World)
      → Keeps I c
      → I x.1
      → I (recover c g x).1
  Keeps-recover c g (ok a, w) kc h = h
  Keeps-recover c g (err e, w) kc h = kc.at w h

  pub Keeps-on_error :
      (c : M (Unit {0})) (g : Error → Error) (m : M A)
      → Keeps I c
      → Keeps I m
      → Keeps I (on_error c g m)
  unfolding on_error
  Keeps-on_error c g m kc km = record { at = λ w h. Keeps-recover c g (m w) kc (km.at w h) }

  Keeps-handle :
      (f : Error → M A) (x : Result A × World)
      → ((e : Error) → Keeps I (f e))
      → I x.1
      → I (handle f x).1
  Keeps-handle f (ok a, w) k h = h
  Keeps-handle f (err e, w) k h = (k e).at w h

  pub Keeps-rescue :
      (f : Error → M A) (m : M A) → ((e : Error) → Keeps I (f e)) → Keeps I m → Keeps I (rescue f m)
  unfolding rescue
  Keeps-rescue f m kf km = record { at = λ w h. Keeps-handle f (m w) kf (km.at w h) }

  pub Keeps-finally : (c : M (Unit {0})) (m : M A) → Keeps I c → Keeps I m → Keeps I (finally c m)
  unfolding finally
  Keeps-finally c m kc km = record { at = λ w h. kc.at (m w).1 (km.at w h) }

module _ (I : World → Type 0) where
  Keeps-os_call_end : (f : Option Fault) (w : World) → I (tick w) → I (os_call_end f w).1
  Keeps-os_call_end none w h = h
  Keeps-os_call_end (some x) w h = h

  Keeps-call_end : (f : Option Fault) (w : World) → I (tick w) → I (call_end f w).1
  Keeps-call_end none w h = h
  Keeps-call_end (some x) w h = h

module _ {I : World → Type 0} where
  pub Keeps-raise_if : (b : Bool) (e : Error) → Keeps I (raise_if b e)
  unfolding raise_if
  Keeps-raise_if true e = record { at = λ w h. h }
  Keeps-raise_if false e = record { at = λ w h. h }

  pub Keeps-modify : (f : World → World) → ((w : World) → I w → I (f w)) → Keeps I (modify f)
  unfolding modify
  Keeps-modify f k = record { at = k }

  pub Keeps-os_call : (p : Platform) → ((w : World) → I w → I (tick w)) → Keeps I (os_call p)
  unfolding os_call
  Keeps-os_call p k = record { at = λ w h. Keeps-os_call_end I (p.fault w.step) w (k w h) }

  pub Keeps-call : (p : Platform) → ((w : World) → I w → I (tick w)) → Keeps I (call p)
  unfolding call
  Keeps-call p k = record { at = λ w h. Keeps-call_end I (p.fault w.step) w (k w h) }

module _ {A B : Type 0} {I : World → Type 0} where
  Keeps-continue :
      (f : A → M B) (x : Result A × World) → ((a : A) → Keeps I (f a)) → I x.1 → I (continue f x).1
  Keeps-continue f (ok a, w) k h = (k a).at w h
  Keeps-continue f (err e, w) k h = h

  pub Keeps-bind :
      (m : M A) (f : A → M B) → Keeps I m → ((a : A) → Keeps I (f a)) → Keeps I (m >>= f)
  unfolding ◌>>=◌
  Keeps-bind m f km kf = record { at = λ w h. Keeps-continue f (m w) kf (km.at w h) }

  Keeps-continue_where :
      (Post : A → Type 0) (f : A → M B) (x : Result A × World)
      → ((a : A) (w : World) → x ≡ (ok a, w) → Post a)
      → ((a : A) → Post a → Keeps I (f a))
      → I x.1
      → I (continue f x).1
  Keeps-continue_where Post f (ok a, w) post k h = (k a (post a w refl)).at w h
  Keeps-continue_where Post f (err e, w) post k h = h

  -- The rest of the chain may use what the first call says of the value that it returns.
  pub Keeps-bind_where :
      (Post : A → Type 0) (m : M A) (f : A → M B)
      → ((w : World) (a : A) (w' : World) → m w ≡ (ok a, w') → Post a)
      → Keeps I m
      → ((a : A) → Post a → Keeps I (f a))
      → Keeps I (m >>= f)
  unfolding ◌>>=◌
  Keeps-bind_where Post m f post km kf = record {
    at = λ w h. Keeps-continue_where Post f (m w) (λ a w' e. post w a w' e) kf (km.at w h);
  }

pub ruleset keeps_rules = (
  Keeps-pure, Keeps-raise, Keeps-gets, Keeps-lift, Keeps-or_raise, Keeps-attempt, Keeps-ignore,
  Keeps-if, Keeps-on_error, Keeps-raise_if, Keeps-rescue, Keeps-finally, Keeps-bind,
)
