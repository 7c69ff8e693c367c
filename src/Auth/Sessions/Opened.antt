-- ===== src/Auth/Sessions/Opened.antt =====
-- What opening a session, and the test of the throttle, leave.
use securevault.Auth.Password.Steady.{random_bytes-Steady}
use securevault.Effect.Runs.{run_step, query_ok, run_ok}
use securevault.Effect.RollsBack.{Steady-eq}
use securevault.Effect.Bind.{gets_ok, bind_ok}
use securevault.Database.Table.{find}
use securevault.Database.Schema.{SessionRow, Db}
use securevault.Auth.Sessions.{
  throttle_addr_max, recent_failures, token_bytes, throttle_user_max, hash_token, prune_failures,
  throttle_window, Service, new_session_token, create_session, is_throttled, insert_session,
}
use securevault.Effect.{World, pure}
use securevault.Base.{
  ltb, leb, is_some, nat_eq, string_eq, Bytes, bytes_eq, keep, ok, ℕ, suc, ◌+◌, String, ◌≡◌, refl,
  sym, ap, ◌∙◌, Bool, true, not, ◌||◌, none, ◌∷◌, arith,
}
use securevault.Platform.{Platform}

-- One more session of a user, whose token had no session before.
pub record Opened (p : Platform) (sv : Service) (id : String) (d : Db) (token : Bytes) (d' : Db)
    : Type 0 where
  pub session : SessionRow
  pub owner : session.user_id ≡ id
  pub hash : session.token_hash ≡ hash_token p token
  pub fresh : find (λ s. s.token_hash) session.token_hash d.sessions ≡ none
  pub user : is_some (find (λ u. u.id) id d.users) ≡ true
  pub expiry : session.expires_at ≡ session.last_seen_at + sv.session_absolute_ttl
  pub tables : d' ≡ record d { sessions = session ∷ d.sessions }

insert_session_did :
    (s : SessionRow) (d : Db) {a : Unit {0}} {d' : Db}
    → insert_session s d ≡ ok (a, d')
    → (find (λ r. r.token_hash) s.token_hash d.sessions ≡ none)
      × (is_some (find (λ u. u.id) s.user_id d.users) ≡ true)
      × (d' ≡ record d { sessions = s ∷ d.sessions })
unfolding insert_session
insert_session_did s d h = ground arith

abbrev pub pruned : ℕ → Db → Db
pruned now d = record d {
  login_failures = keep (λ f. not (ltb (f.attempted_at + throttle_window) now)) d.login_failures;
}

-- The number of recent failures of the name, or of the address, has reached its bound.
abbrev pub throttles : String → String → ℕ → Db → Bool
throttles a b now d =
    leb throttle_user_max (recent_failures a now d)
    || leb throttle_addr_max (recent_failures b now d)

module _ (p : Platform) where
  new_session_token_ok :
      (w : World) {token hash : Bytes} {w' : World}
      → new_session_token p w ≡ (ok (token, hash), w')
      → (hash ≡ hash_token p token) × (w'.db ≡ w.db)
  unfolding new_session_token pure
  new_session_token_ok w h =
      bind_ok _ _ w h
        λ raw w1 drawn h1. (cc h1, cc (h1, Steady-eq _ w (random_bytes-Steady p token_bytes) drawn))

  pub create_session_ok :
      (sv : Service) (id : String) (w : World) {token : Bytes} {w' : World}
      → create_session p sv id w ≡ (ok token, w')
      → Opened p sv id w.db token w'.db
  unfolding create_session pure
  create_session_ok sv id w {token} {w'} h = bind_ok _ _ w h λ (t, hash) w1 drawn h1.
      bind_ok _ _ w1 h1 λ now w2 read h2. bind_ok _ _ w2 h2 λ _ w3 ran h3.
        let (hash_eq, db1) = new_session_token_ok w drawn in
        let db2 : w2.db ≡ w.db = ap (λ (w : World). w.db) (gets_ok _ w1 read).1 ∙ db1 in
        let (fresh, user, tables) = insert_session_did _ w2.db (run_ok p _ w2 ran).did in
        record {
          session = record {
            user_id = id;
            token_hash = hash;
            expires_at = now + sv.session_absolute_ttl;
            last_seen_at = now;
          };
          owner = refl;
          hash = cc (hash_eq, h3);
          fresh = rw (← db2) fresh;
          user = rw (← db2) user;
          expiry = refl;
          tables = rw (← db2) (cc (h3, tables));
        }

  pub is_throttled_ok :
      (a b : String) (w : World) {t : Bool} {w' : World}
      → is_throttled p a b w ≡ (ok t, w')
      → (w'.db ≡ pruned (p.now w.step) w.db) × (t ≡ throttles a b (p.now (suc w.step)) w'.db)
  unfolding is_throttled prune_failures pure
  is_throttled_ok a b w {t} {w'} h = bind_ok _ _ w h λ cut w1 read h1.
      bind_ok _ _ w1 h1 λ _ w2 ran h2. bind_ok _ _ w2 h2 λ now w3 read2 h3.
        bind_ok _ _ w3 h3 λ (user_fails, addr_fails) w4 asked h4.
          let (cut_eq, same1) = gets_ok _ w read in
          let (now_eq, same3) = gets_ok _ w2 read2 in
          let (counts_eq, same4) = query_ok p _ w3 asked in
          let tables : w2.db ≡ pruned cut w1.db = cc (run_ok p _ w1 ran).did in
          let end : w'.db ≡ w2.db =
            cc (h4, ap (λ (w : World). w.db) same4, ap (λ (w : World). w.db) same3) in
          let time : now ≡ p.now (suc w.step) =
            now_eq ∙ ap p.now (run_step p _ w1 ran ∙ ap (λ (w : World). suc w.step) same1) in
          (
            cc (end, tables, cut_eq, same1),
            cc h4
                ∙ ap (λ (x : ℕ × ℕ). leb throttle_user_max x.0 || leb throttle_addr_max x.1)
                    counts_eq
                ∙ ap (throttles a b now) (ap (λ (w : World). w.db) same3 ∙ sym end)
                ∙ ap (λ n. throttles a b n w'.db) time,
          )
