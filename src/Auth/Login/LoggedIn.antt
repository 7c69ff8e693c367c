-- ===== src/Auth/Login/LoggedIn.antt =====
-- Who is logged in, and what a login leaves in the tables.
use securevault.Auth.Registration.{anonymous}
use securevault.Files.Node.{event}
use securevault.Audit.{result_denied, record_event}
use securevault.Audit.Laws.{record_event_db}
use securevault.Effect.Runs.{query_ok, run_ok}
use securevault.Auth.Password.{verify_password}
use securevault.Auth.Sessions.Opened.{is_throttled_ok, pruned, create_session_ok, Opened, throttles}
use securevault.Effect.Bind.{bind_ok}
use securevault.Database.Table.{delete}
use securevault.Auth.User.{User}
use securevault.Auth.Sessions.{Service}
use securevault.Database.Schema.{named, UserRow, Db}
use securevault.Auth.Login.{
  addr_key, user_key, account_of, clear_failures, login_failed, open_session, log_in, login,
}
use mathlib.Core.Path.{subst}
use securevault.Effect.{query, World, pure, raise, lift, ◌>>=◌, ◌>>◌}
use securevault.Base.{
  if◌then◌else◌, nat_eq, string_eq, Bytes, bytes_eq, Result, throttled, ok, suc, String, ◌≡◌, sym,
  ap, ◌∙◌, ◌≢◌, Bool, true, false, Option, none, some,
}
use securevault.Platform.{Platform}

abbrev pub cleared : String → Db → Db
cleared key d = record d { login_failures = delete (λ f. f.key) key d.login_failures }

-- A login: an account of the name, whose hash the password matches, and a session of that account.
pub record LoggedIn (p : Platform) (sv : Service) (username : String) (password : Bytes) (d : Db)
    (token : Bytes) (u : User) (d' : Db) : Type 0 where
  pub row : UserRow
  pub found : account_of d username ≡ some row
  pub matches : verify_password p password row.password_hash ≡ ok true
  pub principal : u ≡ record { id = row.id; username = username; role = row.role }
  pub opened : Opened p sv row.id (cleared (user_key username) d) token d'

module _ (p : Platform) where
  login_failed_fails :
      {A : Type 0} (username addr reason : String) (w : World) {a : A} {w' : World}
      → login_failed p username addr reason w ≢ (ok a, w')
  unfolding login_failed raise
  login_failed_fails username addr reason w h = bind_ok _ _ w h λ now w1 read h1.
      bind_ok _ _ w1 h1 λ _ w2 ran h2. bind_ok _ _ w2 h2 λ _ w3 recorded h3. absurd (cc h3)

  open_session_ok :
      (sv : Service) (username : String) (u : User) (w : World) {token : Bytes} {v : User}
      {w' : World}
      → open_session p sv username u w ≡ (ok (token, v), w')
      → (v ≡ u) × Opened p sv u.id (cleared (user_key username) w.db) token w'.db
  unfolding open_session clear_failures pure
  open_session_ok sv username u w {token} {v} {w'} h = bind_ok _ _ w h λ _ w1 ran h1.
      bind_ok _ _ w1 h1 λ t w2 made h2. bind_ok _ _ w2 h2 λ _ w3 recorded h3.
        let o = create_session_ok p sv u.id w1 made in
        let before : w1.db ≡ cleared (user_key username) w.db = cc (run_ok p _ w ran).did in
        let after : w2.db ≡ w'.db = cc (h3, record_event_db p _ w2 recorded) in
        let t_eq : t ≡ token = cc h3 in
        (
          cc h3,
          subst (λ d. Opened p sv u.id d token w'.db) before
              (subst (Opened p sv u.id w1.db token) after
                (subst (λ t. Opened p sv u.id w1.db t w2.db) t_eq o)),
        )

  log_in_ok :
      (sv : Service) (username : String) (password : Bytes) (addr : String) (o : Option UserRow)
      (w : World) {token : Bytes} {u : User} {w' : World}
      → account_of w.db username ≡ o
      → log_in p sv username password addr o w ≡ (ok (token, u), w')
      → LoggedIn p sv username password w.db token u w'.db
  unfolding log_in lift
  log_in_ok sv username password addr none w e h = absurd (login_failed_fails username addr _ w h)
  log_in_ok sv username password addr (some row) w {token} {u} {w'} e h =
      bind_ok _ _ w h λ b w1 checked h1. go b w1 checked h1
    where
      go :
          (b : Bool) (w1 : World)
          → lift (verify_password p password row.password_hash) w ≡ (ok b, w1)
          → (if b
                then open_session p sv username
                    (record { id = row.id; username = username; role = row.role })
                else login_failed p username addr "wrong_password")
              w1
            ≡ (ok (token, u), w')
          → LoggedIn p sv username password w.db token u w'.db
      go false w1 checked h1 = absurd (login_failed_fails username addr _ w1 h1)
      go true w1 checked h1 =
          let (u_eq, opened) = open_session_ok sv username _ w1 h1 in
          record {
            row = row;
            found = e;
            matches = cc checked;
            principal = u_eq;
            opened =
                subst (λ d. Opened p sv row.id (cleared (user_key username) d) token w'.db)
                  (ap (λ (x : Result Bool × World). x.1.db) (sym checked)) opened;
          }

  -- A login that succeeds met a throttle that was open for its name and its address, after old
  -- failures were pruned; an account has the name, the password matches its hash, the principal is
  -- that account, the failures of the name are deleted, and the tables gain one session of the
  -- account, for the token that is returned, with a hash that no session had.
  pub login_ok :
      (sv : Service) (username : String) (password : Bytes) (addr : String) (w : World)
      {token : Bytes} {u : User} {w' : World}
      → login p sv username password addr w ≡ (ok (token, u), w')
      → (throttles
            (user_key username)
            (addr_key addr)
            (p.now (suc w.step))
            (pruned (p.now w.step) w.db)
          ≡ false)
        × LoggedIn p sv username password (pruned (p.now w.step) w.db) token u w'.db
  unfolding login raise
  login_ok sv username password addr w {token} {u} {w'} h =
      bind_ok _ _ w h
        λ t w1 tested h1. let (db1, t_eq) = is_throttled_ok p _ _ w tested in go t w1 db1 t_eq h1
    where
      go :
          (t : Bool) (w1 : World)
          → w1.db ≡ pruned (p.now w.step) w.db
          → t ≡ throttles (user_key username) (addr_key addr) (p.now (suc w.step)) w1.db
          → (if t
                then record_event p (
                    event
                      (anonymous username)
                      "auth.login"
                      (named username)
                      result_denied
                      "throttled")
                  >> raise throttled
                else query p (λ d. account_of d username) >>= log_in p sv username password addr)
              w1
            ≡ (ok (token, u), w')
          → (throttles
                (user_key username)
                (addr_key addr)
                (p.now (suc w.step))
                (pruned (p.now w.step) w.db)
              ≡ false)
            × LoggedIn p sv username password (pruned (p.now w.step) w.db) token u w'.db
      go true w1 db1 t_eq h1 = bind_ok _ _ w1 h1 λ _ w2 recorded h2. absurd (cc h2)
      go false w1 db1 t_eq h1 = bind_ok _ _ w1 h1 λ o w2 asked h2.
          let (o_eq, same) = query_ok p _ w1 asked in
          let db2 : w2.db ≡ pruned (p.now w.step) w.db = ap (λ (w : World). w.db) same ∙ db1 in
          let l =
            log_in_ok sv username password addr o w2
              (sym (o_eq ∙ ap (λ (w : World). account_of w.db username) (sym same))) h2 in
          (
            sym (
                t_eq ∙ ap (throttles (user_key username) (addr_key addr) (p.now (suc w.step))) db1),
            subst (λ d. LoggedIn p sv username password d token u w'.db) db2 l,
          )
