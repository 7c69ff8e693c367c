-- ===== src/Auth/Login/Changed.antt =====
-- What a change of the password leaves in the tables.
use securevault.Auth.Password.Verify.{verify_password-hash_password}
use securevault.Audit.Laws.{record_event_db}
use securevault.Auth.Password.Steady.{hash_password-tick}
use securevault.Effect.Runs.{run_ok, query_ok}
use securevault.Files.Node.{event}
use securevault.Effect.Bind.{gets_ok, lift_ok, or_raise_ok, pass_ok, bind_ok}
use securevault.Auth.Registration.Registered.{policy-lengths}
use securevault.Audit.{result_denied, record_event}
use securevault.Auth.Sessions.Opened.{create_session_ok, Opened}
use securevault.Auth.Password.{verify_password}
use securevault.Platform.Laws.{IsPasswordLawful}
use securevault.Auth.User.{User}
use securevault.Auth.Sessions.{Service}
use securevault.Database.Table.{find, delete, update}
use securevault.Database.Schema.{named, UserRow, Db}
use securevault.Auth.Login.{delete_sessions, update_password, replace_password, change_password}
use mathlib.Core.Path.{subst}
use securevault.Effect.{tick, World, pure, raise, ◌>>◌}
use securevault.Base.{
  if◌then◌else◌, nat_eq, string_eq, Bytes, bytes_eq, length, invalid_credentials, internal, ok, ℕ,
  suc, ◌≤◌, String, ◌≡◌, refl, sym, ap, ◌∙◌, Bool, true, false, some,
}
use securevault.Platform.{Platform}

-- The tables with a new hash for an account and the time of it, and without its sessions.
abbrev pub rekeyed : String → Bytes → ℕ → Db → Db
rekeyed id hash now d = record d {
  users =
      update (λ u. u.id) id (λ u. record u { password_hash = hash; password_changed_at = now })
        d.users;
  sessions = delete (λ s. s.user_id) id d.sessions;
}

rekeyed_by :
    (id : String) (hash : Bytes) (now : ℕ) (d : Db) {a b : Unit {0}} {d1 d2 : Db}
    → update_password hash id now d ≡ ok (a, d1)
    → delete_sessions id d1 ≡ ok (b, d2)
    → d2 ≡ rekeyed id hash now d
unfolding update_password delete_sessions
rekeyed_by id hash now d {a} {b} {d1} {d2} updated ended =
    let first : d1 ≡ record d { users = (rekeyed id hash now d).users } = cc updated in
    let second : d2 ≡ record d1 { sessions = (rekeyed id hash now d1).sessions } = cc ended in
    second ∙ ap (λ (d : Db). record d { sessions = delete (λ s. s.user_id) id d.sessions }) first

module _ (p : Platform) where
  replace_password_ok :
      (sv : Service) (u : User) (next : Bytes) (w : World) {token : Bytes} {w' : World}
      → IsPasswordLawful p
      → replace_password p sv u next w ≡ (ok token, w')
      → (hash : Bytes) × (verify_password p next hash ≡ ok true)
        × Opened p sv u.id (rekeyed u.id hash (p.now (suc w.step)) w.db) token w'.db
  unfolding replace_password update_password delete_sessions pure
  replace_password_ok sv u next w {token} {w'} law h = bind_ok _ _ w h λ hash w1 hashed h1.
      bind_ok _ _ w1 h1 λ now w0 read h0. bind_ok _ _ w0 h0 λ _ w2 updated h2.
        bind_ok _ _ w2 h2 λ _ w3 ended h3. bind_ok _ _ w3 h3 λ t w4 made h4.
          bind_ok _ _ w4 h4 λ _ w5 recorded h5.
            let o = create_session_ok p sv u.id w3 made in
            let (now_eq, same) = gets_ok _ w1 read in
            let ticked = hash_password-tick p next w hashed in
            let time : now ≡ p.now (suc w.step) =
              now_eq ∙ ap (λ (w : World). p.now w.step) ticked in
            let before : w3.db ≡ rekeyed u.id hash (p.now (suc w.step)) w.db =
              rekeyed_by u.id hash now w0.db (run_ok p _ w0 updated).did (run_ok p _ w2 ended).did
              ∙ rw (time, same, ticked) refl in
            let after : w4.db ≡ w'.db = cc (h5, record_event_db p _ w4 recorded) in
            let t_eq : t ≡ token = cc h5 in
            (
              hash,
              verify_password-hash_password p law next hash w w1 hashed,
              subst (λ d. Opened p sv u.id d token w'.db) before
                  (subst (Opened p sv u.id w3.db token) after
                    (subst (λ t. Opened p sv u.id w3.db t w4.db) t_eq o)),
            )

  -- With the row of the account in hand.
  pub record Changed (sv : Service) (u : User) (current next : Bytes) (now : ℕ) (d : Db)
      (token : Bytes) (d' : Db) : Type 0 where
    pub row : UserRow
    pub hash : Bytes
    pub found : find (λ r. r.id) u.id d.users ≡ some row
    pub matches : verify_password p current row.password_hash ≡ ok true
    pub replaced : verify_password p next hash ≡ ok true
    pub opened : Opened p sv u.id (rekeyed u.id hash now d) token d'

  checked_ok :
      (sv : Service) (u : User) (current next : Bytes) (row : UserRow) (b : Bool) (w : World)
      {token : Bytes} {w' : World}
      → IsPasswordLawful p
      → find (λ r. r.id) u.id w.db.users ≡ some row
      → verify_password p current row.password_hash ≡ ok b
      → (if b
            then replace_password p sv u next
            else record_event p
                (event u "auth.password_change" (named u.username) result_denied "wrong_password")
              >> raise invalid_credentials)
          w
        ≡ (ok token, w')
      → Changed sv u current next (p.now (suc w.step)) w.db token w'.db
  unfolding raise
  checked_ok sv u current next row false w law found checked h =
      bind_ok _ _ w h λ _ w1 recorded h1. absurd (cc h1)
  checked_ok sv u current next row true w law found checked h =
      let (hash, replaced, opened) = replace_password_ok sv u next w law h in
      record {
        row = row;
        hash = hash;
        found = found;
        matches = checked;
        replaced = replaced;
        opened = opened;
      }

  -- Where the random source and Argon2id are lawful: a change of the password that succeeds has a
  -- new password of 8 to 128 bytes, the current one matches the hash of the account, the account
  -- has a hash that the new one verifies against and the time of the change, its old sessions are
  -- deleted, and the tables gain one session of it, for the token that is returned, and are changed
  -- nowhere else.
  pub change_password_ok :
      (sv : Service) (u : User) (current next : Bytes) (w : World) {token : Bytes} {w' : World}
      → IsPasswordLawful p
      → change_password p sv u current next w ≡ (ok token, w')
      → ((8 ≤ length next) × (length next ≤ 128))
        × Changed sv u current next (p.now (suc (suc w.step))) w.db token w'.db
  unfolding change_password
  change_password_ok sv u current next w {token} {w'} law h = pass_ok _ _ _ w h λ strong h1.
      bind_ok _ _ w h1 λ found w1 asked h2. bind_ok _ _ w1 h2 λ row w2 got h3.
        bind_ok _ _ w2 h3 λ b w3 checked h4.
          let (found_eq, same1) = query_ok p _ w asked in
          let (row_eq, same2) = or_raise_ok found internal w1 got in
          let (matches, same3) = lift_ok _ w2 checked in
          let here : w3 ≡ tick w = same3 ∙ same2 ∙ same1 in
          (
            policy-lengths next strong,
            subst (λ (v : World). Changed sv u current next (p.now (suc v.step)) v.db token w'.db)
                here
                (checked_ok sv u current next row b w3 law
                  (ap (λ (v : World). find (λ r. r.id) u.id v.db.users) here
                    ∙ (sym found_eq ∙ row_eq))
                  matches h4),
          )
