-- ===== src/Auth/Login/Throttled.antt =====
-- How many wrong passwords are checked for a name before it is throttled.
use securevault.Auth.Password.{verify_password}
use securevault.Auth.User.{User}
use securevault.Effect.Runs.{query-eq, run-eq_of_ok}
use securevault.Audit.Laws.{record_event-Steady}
use securevault.Effect.Bind.{bind-eq_of_ok}
use securevault.Auth.Sessions.Opened.{pruned, throttles}
use securevault.Audit.{Event, record_event}
use securevault.Database.Schema.{UserRow, FailureRow, Db}
use securevault.Auth.Sessions.{
  recent_failures, throttle_window, Service, prune_failures, is_throttled,
}
use securevault.Auth.Login.{
  log_in, account_of, login_failed, insert_failures, addr_key, user_key, login,
}
use securevault.Platform.Laws.{NoFault}
use securevault.Effect.{
  lift, clock, gets, pure, raise, tick, ignore, World, run, query, ◌>>=◌, ◌>>◌,
}
use mathlib.Core.Path.{subst}
use securevault.Base.{
  ltb, leb, if◌then◌else◌, Bool-cases, ◌==◌, eq_refl, nat_eq, string_eq, Bytes, bytes_eq, keep,
  count, All, Error, Result, invalid_credentials, throttled, ok, err, ℕ, suc, ◌+◌, ◌≤◌, String, ◌≡◌,
  refl, sym, ap, ◌∙◌, inl, inr, Bool, true, false, not, ◌&&◌, Option, none, some, List, [], ◌∷◌,
  arith,
}
use securevault.Platform.{Platform}

abbrev failed_twice : String → String → ℕ → Db → Db
failed_twice a b now d = record d {
  login_failures =
      record { key = b; attempted_at = now }
      ∷ record { key = a; attempted_at = now }
      ∷ d.login_failures;
}

insert_failures-eq :
    (a b : String) (now : ℕ) (d : Db) → insert_failures a b now d ≡ ok (tt, failed_twice a b now d)
unfolding insert_failures
insert_failures-eq a b now d = refl

-- A failure within the window counts.
more-count :
    (a b : String) (now t : ℕ) (d : Db) (n : ℕ)
    → t ≤ now + throttle_window
    → n ≤ recent_failures a t d
    → suc n ≤ recent_failures a t (failed_twice a b now d)
unfolding recent_failures
more-count a b now t d n within h =
    let inside : leb t (now + throttle_window) ≡ true = ground (arith, within) in
    rw (eq_refl a, inside) (ground (arith, h))

-- Pruning drops no failure that counts later.
recent_failures-pruned :
    (k : String) (cut t : ℕ) (d : Db)
    → cut ≤ t
    → recent_failures k t (pruned cut d) ≡ recent_failures k t d
unfolding recent_failures
recent_failures-pruned k cut t d le = go d.login_failures
  where
    go :
        (fs : List FailureRow)
        → count
            (λ f. f.key == k && leb t (f.attempted_at + throttle_window))
            (keep (λ f. not (ltb (f.attempted_at + throttle_window) cut)) fs)
          ≡ count (λ f. f.key == k && leb t (f.attempted_at + throttle_window)) fs
    go [] = refl
    go (f ∷ fs) = ground (arith, le, go fs)

-- A failure that counts at a time counts before it.
recent_failures-later :
    (k : String) (t later : ℕ) (d : Db)
    → t ≤ later
    → recent_failures k later d ≤ recent_failures k t d
unfolding recent_failures
recent_failures-later k t later d le = go d.login_failures
  where
    go :
        (fs : List FailureRow)
        → count (λ f. f.key == k && leb later (f.attempted_at + throttle_window)) fs
          ≤ count (λ f. f.key == k && leb t (f.attempted_at + throttle_window)) fs
    go [] = omega arith
    go (f ∷ fs) = ground (arith, le, go fs)

-- A password that is not the account's, or there is no account.
abbrev pub IsWrong : Platform → Bytes → Option UserRow → Type 0
IsWrong p password none = Unit
IsWrong p password (some row) = verify_password p password row.password_hash ≡ ok false

abbrev pub is_checked : Result (Bytes × User) → Bool
is_checked (err throttled) = false
is_checked _ = true

module _ (p : Platform) (works : NoFault p) where
  abbrev after_test : World → World
  after_test w = tick (record (tick w) { db = pruned (p.now w.step) w.db })

  is_throttled-eq :
      (a b : String) (w : World)
      → is_throttled p a b w
        ≡ (ok (throttles a b (p.now (suc w.step)) (pruned (p.now w.step) w.db)), after_test w)
  unfolding is_throttled pure prune_failures gets
  is_throttled-eq a b w =
      bind-eq_of_ok (clock p) _ w refl
      ∙ bind-eq_of_ok (run p (prune_failures (p.now w.step))) _ w (run-eq_of_ok p works _ w refl)
      ∙ bind-eq_of_ok (clock p) _ _ refl
      ∙ bind-eq_of_ok (query p _) _ _ (query-eq p works _ _)

  refused-eq :
      {A : Type 0} (e : Event) (x : Error) (w : World)
      → (((record_event p e >> raise {A = A} x) w).0 ≡ err x)
        × (((record_event p e >> raise {A = A} x) w).1.db ≡ w.db)
  unfolding raise record_event ignore ◌>>=◌
  refused-eq e x w = (refl, (record_event-Steady p e).at w)

  -- A login is refused as throttled where the test says so, whatever the password.
  login-throttled :
      (sv : Service) (username : String) (password : Bytes) (addr : String) (w : World)
      → throttles
          (user_key username)
          (addr_key addr)
          (p.now (suc w.step))
          (pruned (p.now w.step) w.db)
        ≡ true
      → ((login p sv username password addr w).0 ≡ err throttled)
        × ((login p sv username password addr w).1.db ≡ pruned (p.now w.step) w.db)
  unfolding login
  login-throttled sv username password addr w h =
      rw
        (
          bind-eq_of_ok (is_throttled p (user_key username) (addr_key addr)) _ w
              (is_throttled-eq (user_key username) (addr_key addr) w),
          h,
        )
        (refused-eq _ throttled (after_test w))

  login_failed-eq :
      {A : Type 0} (username addr reason : String) (w : World)
      → ((login_failed p {A = A} username addr reason w).0 ≡ err invalid_credentials)
        × ((login_failed p {A = A} username addr reason w).1.db
            ≡ failed_twice (user_key username) (addr_key addr) (p.now w.step) w.db)
  unfolding login_failed gets
  login_failed-eq username addr reason w =
      rw
        (
          bind-eq_of_ok (clock p) _ w refl,
          bind-eq_of_ok (run p (insert_failures (user_key username) (addr_key addr) (p.now w.step)))
              _ w (run-eq_of_ok p works _ w (insert_failures-eq _ _ _ w.db)),
        )
        (refused-eq _ invalid_credentials _)

  log_in-wrong :
      (sv : Service) (username : String) (password : Bytes) (addr : String) (o : Option UserRow)
      (w : World)
      → IsWrong p password o
      → ((log_in p sv username password addr o w).0 ≡ err invalid_credentials)
        × ((log_in p sv username password addr o w).1.db
            ≡ failed_twice (user_key username) (addr_key addr) (p.now w.step) w.db)
  unfolding log_in
  log_in-wrong sv username password addr none w h = login_failed-eq username addr "unknown_user" w
  log_in-wrong sv username password addr (some row) w h =
      rw (bind-eq_of_ok (lift (verify_password p password row.password_hash)) _ w (lifted w h))
        (login_failed-eq username addr "wrong_password" w)
    where
      lifted :
          (w : World)
          → verify_password p password row.password_hash ≡ ok false
          → lift (verify_password p password row.password_hash) w ≡ (ok false, w)
      lifted w h = unfold lift in ap (λ r. (r, w)) h

  -- The tables after the test of the throttle.
  abbrev tested : World → Db
  tested w = pruned (p.now w.step) w.db

  login-wrong :
      (sv : Service) (username : String) (password : Bytes) (addr : String) (w : World)
      → throttles (user_key username) (addr_key addr) (p.now (suc w.step)) (tested w) ≡ false
      → IsWrong p password (account_of w.db username)
      → ((login p sv username password addr w).0 ≡ err invalid_credentials)
        × ((login p sv username password addr w).1.db
            ≡ failed_twice
                (user_key username)
                (addr_key addr)
                (p.now (suc (suc (suc w.step))))
                (tested w))
  unfolding login
  login-wrong sv username password addr w h wrong =
      rw
        (
          bind-eq_of_ok (is_throttled p (user_key username) (addr_key addr)) _ w
              (is_throttled-eq (user_key username) (addr_key addr) w),
          h,
          bind-eq_of_ok (query p (λ d. account_of d username)) _ (after_test w)
              (query-eq p works _ (after_test w)),
        )
        (log_in-wrong sv username password addr (account_of w.db username) (tick (after_test w))
          wrong)

  -- How many logins of a name, one after another, are answered otherwise than as throttled.
  abbrev pub checked : Service → String → List (Bytes × String) → World → ℕ
  checked sv username [] w = 0
  checked sv username ((password, addr) ∷ attempts) w =
      let (answer, w') = login p sv username password addr w in
      let rest = checked sv username attempts w' in if is_checked answer then suc rest else rest

  checked_bound :
      (sv : Service) (username : String) (o : Option UserRow) (opened n : ℕ)
      (attempts : List (Bytes × String)) (w : World)
      → ((s : ℕ) → (opened ≤ p.now s) × (p.now s ≤ opened + throttle_window))
      → account_of w.db username ≡ o
      → All (λ a. IsWrong p a.0 o) attempts
      → n ≤ recent_failures (user_key username) (opened + throttle_window) w.db
      → n ≤ 10
      → n + checked sv username attempts w ≤ 10
  checked_bound sv username o opened n [] w clock_in same wrong counted few = omega arith
  checked_bound sv username o opened n ((password, addr) ∷ attempts) w clock_in same (now, later)
        counted few =
      let k = user_key username in
      let end = opened + throttle_window in
      let kept = recent_failures-pruned k (p.now w.step) end w.db (clock_in w.step).1 in
      let still : n ≤ recent_failures k end (tested w) = omega (arith, counted, kept) in
      elim (Bool-cases (throttles k (addr_key addr) (p.now (suc w.step)) (tested w))) [
        | inl closed ↦
            let (refused, tables) = login-throttled sv username password addr w closed in
            let w' = (login p sv username password addr w).1 in
            let account : account_of w'.db username ≡ o = rw (tables) same in
            rw (refused) (
              checked_bound sv username o opened n attempts w' clock_in account later
                (rw (tables) still) few)
        | inr unthrottled ↦
            let wrong = subst (IsWrong p password) (sym same) now in
            let (failed, tables) = login-wrong sv username password addr w unthrottled wrong in
            let w' = (login p sv username password addr w).1 in
            let account : account_of w'.db username ≡ o = rw (tables) same in
            let made = p.now (suc (suc (suc w.step))) in
            let more : suc n ≤ recent_failures k end w'.db = rw (tables) (
              more-count k (addr_key addr) made end (tested w) n
                (omega (arith, (clock_in (suc (suc (suc w.step)))).0)) still) in
            let fewer =
              recent_failures-later k (p.now (suc w.step)) end (tested w)
                (clock_in (suc w.step)).1 in
            let below : suc n ≤ 10 = ground (arith, unthrottled, still, fewer) in
            let rest =
              checked_bound sv username o opened (suc n) attempts w' clock_in account later more
                below in
            rw (failed) (omega (arith, rest))
      ]

  -- Where no call fails and all readings of the clock lie within one window of the throttle: of any
  -- sequence of logins of one name, each with a password that does not match the account of that
  -- name, if there is one, and from whatever addresses, at most ten are answered otherwise than as
  -- throttled.
  pub login-checked_max :
      (sv : Service) (username : String) (attempts : List (Bytes × String)) (opened : ℕ) (w : World)
      → ((s : ℕ) → (opened ≤ p.now s) × (p.now s ≤ opened + throttle_window))
      → All (λ a. IsWrong p a.0 (account_of w.db username)) attempts
      → checked sv username attempts w ≤ 10
  login-checked_max sv username attempts opened w clock_in wrong =
      let bound =
        checked_bound sv username (account_of w.db username) opened 0 attempts w clock_in refl wrong
          (omega arith) (omega arith) in
      omega (arith, bound)
