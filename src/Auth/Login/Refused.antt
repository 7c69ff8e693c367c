-- ===== src/Auth/Login/Refused.antt =====
-- What a caller learns from a login that is refused.
use securevault.Auth.Password.{verify_password}
use securevault.Audit.Laws.{record_event-Steady}
use securevault.Database.Schema.{UserRow}
use securevault.Auth.Sessions.{Service}
use securevault.Audit.{Event, record_event}
use securevault.Auth.Login.{log_in, login_failed}
use securevault.Effect.{continue, M, ignore, lift, raise, World, ◌>>=◌, ◌>>◌}
use securevault.Base.{
  nat_eq, string_eq, Bytes, bytes_eq, Error, Result, ok, err, String, ◌≡◌, refl, sym, ◌∙◌, false,
  none, some,
}
use securevault.Platform.{Platform}

-- Two ends of a call with the same result and the same tables: only the audit log may differ.
pub record SameAnswer {A : Type 0} (x y : Result A × World) : Type 0 where
  pub result : x.0 ≡ y.0
  pub tables : x.1.db ≡ y.1.db

bind-SameAnswer :
    {A B : Type 0} (m : M A) (f g : A → M B) (w : World)
    → ((a : A) (w : World) → SameAnswer (f a w) (g a w))
    → SameAnswer ((m >>= f) w) ((m >>= g) w)
unfolding ◌>>=◌
bind-SameAnswer {A} {B} m f g w k = go (m w)
  where
    go : (x : Result A × World) → SameAnswer (continue f x) (continue g x)
    go (ok a, w1) = k a w1
    go (err e, w1) = record { result = refl; tables = refl }

module _ (p : Platform) where
  recorded-SameAnswer :
      {A : Type 0} (a b : Event) (e : Error) (w : World)
      → SameAnswer {A = A} ((record_event p a >> raise e) w) ((record_event p b >> raise e) w)
  unfolding raise record_event ignore ◌>>=◌
  recorded-SameAnswer a b e w = record {
    result = refl;
    tables = (record_event-Steady p a).at w ∙ sym ((record_event-Steady p b).at w);
  }

  login_failed-SameAnswer :
      {A : Type 0} (username addr r s : String) (w : World)
      → SameAnswer {A = A} (login_failed p username addr r w) (login_failed p username addr s w)
  unfolding login_failed
  login_failed-SameAnswer username addr r s w =
      bind-SameAnswer _ _ _ w
        λ now w1. bind-SameAnswer _ _ _ w1 λ _ w2. recorded-SameAnswer _ _ _ w2

  -- Past the throttle, an unknown name and a wrong password end in the same result and leave the
  -- same tables: only the audit log tells them apart.
  pub log_in-SameAnswer :
      (sv : Service) (username : String) (password : Bytes) (addr : String) (row : UserRow)
      (w : World)
      → verify_password p password row.password_hash ≡ ok false
      → SameAnswer
          (log_in p sv username password addr none w)
          (log_in p sv username password addr (some row) w)
  unfolding log_in lift ◌>>=◌
  log_in-SameAnswer sv username password addr row w wrong =
      rw (wrong) (login_failed-SameAnswer username addr "unknown_user" "wrong_password" w)
