-- ===== src/Auth/Registration/Limits.antt =====
-- What registrations cannot do: change the tables and fail, exceed the cap, or use a code twice.
use securevault.Auth.Password.Steady.{hash_password-Steady}
use securevault.Effect.Keeps.{Keeps-gets, Keeps-raise_if}
use securevault.Audit.Laws.{record_event-Sure}
use securevault.Platform.Laws.{IsPasswordLawful}
use securevault.Effect.RollsBack.{
  Sure-bind, RollsBack-transaction, RollsBack-bind-Sure, Sure-pure, Steady-of_Keeps, RollsBack-bind,
  RollsBack, Sure,
}
use securevault.Auth.Registration.Registered.{register_ok, redeemed}
use securevault.Auth.Registration.Admitted.{Admits}
use securevault.Auth.User.{User}
use securevault.Auth.Policy.{mode_invite, mode_closed, status_of, RegistrationPolicy}
use securevault.Auth.Registration.{record_redemption, register}
use securevault.Database.Schema.{Db}
use securevault.Auth.Sessions.{Service}
use securevault.Effect.{World}
use securevault.Auth.Registration.Admitted.{bootstrap, unrestricted, invited}
use securevault.Base.{
  eq_iff, nat_eq, string_eq, Bytes, bytes_eq, length, Error, Result, ok, err, ℕ, ◌≤◌, ◌<◌, String,
  ◌≡◌, refl, inl, inr, true, Option, none, some, arith,
}
use securevault.Platform.{Platform}

pub length-redeemed :
    (invite : Option String) (user : String) (now : ℕ) (d : Db)
    → length (redeemed invite user now d).users ≡ length d.users
length-redeemed none user now d = refl
length-redeemed (some i) user now d = refl

Admits-HasRoom :
    (p : Platform) (q : RegistrationPolicy) (given : Bytes) (now : ℕ) (d : Db)
    (invite : Option String)
    → 0 < q.max_users
    → Admits p q given now d invite
    → length d.users < q.max_users
Admits-HasRoom p q given now d _ h (bootstrap first) = omega arith
Admits-HasRoom p q given now d _ h (unrestricted (inl none_set) _ _) = omega arith
Admits-HasRoom p q given now d _ h (unrestricted (inr r) _ _) = r
Admits-HasRoom p q given now d _ h (invited (inl none_set) _ _ _ _ _) = omega arith
Admits-HasRoom p q given now d _ h (invited (inr r) _ _ _ _ _) = r

-- What is told to the sign-up form agrees with what is admitted.
Admits-status_of :
    (p : Platform) (q : RegistrationPolicy) (given : Bytes) (now : ℕ) (d : Db)
    (invite : Option String)
    → Admits p q given now d invite
    → (status_of q (length d.users)).accepting ≡ true
unfolding status_of
Admits-status_of p q given now d _ (bootstrap first) = rw (first) refl
Admits-status_of p q given now d _ (unrestricted r unclosed other) =
    ground (arith, r, eq_iff q.mode mode_closed, unclosed)
Admits-status_of p q given now d _ (invited r by_invite i found unused unexpired) =
    ground (arith, r, by_invite, eq_iff q.mode mode_closed, eq_iff q.mode mode_invite)

module _ (p : Platform) where
  record_redemption-Sure : (u : User) (invite : Option String) → Sure (record_redemption p u invite)
  record_redemption-Sure u none = Sure-pure tt
  record_redemption-Sure u (some i) = record_event-Sure p _

  register-RollsBack :
      (sv : Service) (username : String) (password given : Bytes)
      → RollsBack (register p sv username password given)
  unfolding register
  register-RollsBack sv username password given =
      RollsBack-bind _ _ (Steady-of_Keeps _ λ d. Keeps-raise_if _ _) λ _.
        RollsBack-bind _ _ (Steady-of_Keeps _ λ d. Keeps-raise_if _ _) λ _.
          RollsBack-bind _ _ (hash_password-Steady p password) λ hash.
            RollsBack-bind _ _ (Steady-of_Keeps _ λ d. Keeps-gets _) λ now.
              RollsBack-bind-Sure _ _ (RollsBack-transaction p _) λ (u, a).
                Sure-bind _ _ (record_event-Sure p _)
                  λ _. Sure-bind _ _ (record_redemption-Sure u a.invite) λ _. Sure-pure u

  -- A registration that ends in an error, at whatever call, has changed no table but the audit log.
  pub register-eq_of_err :
      (sv : Service) (username : String) (password given : Bytes) (w : World) (e : Error)
      (w' : World)
      → register p sv username password given w ≡ (err e, w')
      → w'.db ≡ w.db
  register-eq_of_err sv username password given w e w' h =
      (register-RollsBack sv username password given).at w e w' h

  -- Under the same laws, with a cap above 0 that the accounts do not exceed: they do not exceed it
  -- after a registration either, however it ends.
  pub register_capped :
      (sv : Service) (username : String) (password given : Bytes) (w : World)
      → IsPasswordLawful p
      → 0 < sv.policy.max_users
      → length w.db.users ≤ sv.policy.max_users
      → length (register p sv username password given w).1.db.users ≤ sv.policy.max_users
  register_capped sv username password given w law capped fits =
      go (register p sv username password given w) refl
    where
      go :
          (x : Result User × World)
          → register p sv username password given w ≡ x
          → length x.1.db.users ≤ sv.policy.max_users
      go (err e, w') h = rw (register-eq_of_err sv username password given w e w' h) fits
      go (ok u, w') h =
          let (hash, _, _, _, r) = register_ok p sv username password given w law h in
          let small = Admits-HasRoom p sv.policy given _ w.db r.invite capped r.admits in
          rw (r.tables, length-redeemed) (omega arith)

  -- Under the same laws, a registration succeeds only where the status that the sign-up form is
  -- told is that registrations are accepted.
  pub register-accepting :
      (sv : Service) (username : String) (password given : Bytes) (w : World) {u : User}
      {w' : World}
      → IsPasswordLawful p
      → register p sv username password given w ≡ (ok u, w')
      → (status_of sv.policy (length w.db.users)).accepting ≡ true
  register-accepting sv username password given w law h =
      let (hash, _, _, _, r) = register_ok p sv username password given w law h in
      Admits-status_of p sv.policy given _ w.db r.invite r.admits
