-- ===== src/Auth/Registration/Registered.antt =====
-- What a registration that succeeds leaves in the tables.
use securevault.Auth.Password.Verify.{verify_password-hash_password}
use securevault.Audit.Laws.{record_event_db}
use securevault.Auth.Password.Steady.{hash_password-tick}
use securevault.Auth.Password.{verify_password}
use securevault.Platform.Laws.{IsPasswordLawful}
use securevault.Auth.Sessions.{Service}
use securevault.Effect.Runs.{transaction_ok, run_ok}
use securevault.Effect.Bind.{pass_ok, rescue_ok, gets_ok, bind_ok}
use securevault.Auth.Registration.Admitted.{admit_registration-Admits, Admits}
use securevault.Files.Upload.{is_unique_violation}
use securevault.Database.Table.{find, update}
use securevault.Auth.User.{role_user, User}
use securevault.Auth.Policy.{RegistrationPolicy}
use securevault.Database.Schema.{UserRow, Db}
use securevault.Auth.Registration.{
  record_redemption, breaks_policy, is_username, register, Admission, consume, consume_invite,
  insert_user, register_body,
}
use mathlib.Core.Path.{subst}
use securevault.Effect.{tick, World, raise, pure}
use securevault.Base.{
  if◌then◌else◌, Bool-cases, nat_eq, string_eq, Bytes, bytes_eq, length, Error, username_taken, ok,
  ℕ, suc, ◌≤◌, String, ◌≡◌, sym, ap, ◌∙◌, ◌≢◌, inl, inr, true, false, Option, none, some, ◌∷◌,
  arith,
}
use securevault.Platform.{Platform}

-- The tables with the invite of a registration used up.
abbrev pub redeemed : Option String → String → ℕ → Db → Db
redeemed none user now d = d
redeemed (some invite) user now d = record d {
  invites =
      update (λ r. r.id) invite (λ r. record r { used_by = some user; used_at = some now })
        d.invites;
}

-- A new account, of an id and a name that no account had, and the invite that paid for it.
pub record Registered (p : Platform) (q : RegistrationPolicy) (username : String) (hash : Bytes)
    (given : Bytes) (now : ℕ) (d : Db) (u : User) (d' : Db) : Type 0 where
  pub invite : Option String
  pub admits : Admits p q given now d invite
  pub new_id : find (λ r. r.id) u.id d.users ≡ none
  pub new_name : find (λ r. r.username) username d.users ≡ none
  pub principal : u ≡ record { id = u.id; username = username; role = "user" }
  pub tables :
      d'
      ≡ redeemed invite u.id now (record d {
        users =
            record {
              id = u.id;
              username = username;
              password_hash = hash;
              role = "user";
              created_at = now;
              password_changed_at = now;
            }
            ∷ d.users;
      })

pub policy-lengths :
    (password : Bytes)
    → breaks_policy password ≡ false
    → (8 ≤ length password) × (length password ≤ 128)
policy-lengths password h = (ground arith, ground arith)

insert_user_did :
    (u : UserRow) (d : Db) {a : Unit {0}} {d' : Db}
    → insert_user u d ≡ ok (a, d')
    → (find (λ r. r.id) u.id d.users ≡ none)
      × (find (λ r. r.username) u.username d.users ≡ none)
      × (d' ≡ record d { users = u ∷ d.users })
unfolding insert_user
insert_user_did u d h = ground arith

renamed_error_fails :
    (e : Error) (w1 : World) (a : Unit {0}) (w' : World)
    → (if is_unique_violation e then raise username_taken else raise e) w1 ≢ (ok a, w')
unfolding raise
renamed_error_fails e w1 a w' h = elim (Bool-cases (is_unique_violation e)) [
  | inl violated ↦ let h' = rw (violated) at h in absurd (cc h')
  | inr other ↦ let h' = rw (other) at h in absurd (cc h')
]

module _ (p : Platform) where
  consume_ok :
      (invite : Option String) (user : String) (now : ℕ) (w : World) {a : Unit {0}} {w' : World}
      → consume p invite user now w ≡ (ok a, w')
      → w'.db ≡ redeemed invite user now w.db
  unfolding pure consume_invite
  consume_ok none user now w h = cc h
  consume_ok (some invite) user now w h = cc (run_ok p _ w h).did

  register_body_ok :
      (q : RegistrationPolicy) (username : String) (hash given : Bytes) (now : ℕ) (w : World)
      {u : User} {a : Admission} {w' : World}
      → register_body p q username hash given now w ≡ (ok (u, a), w')
      → Registered p q username hash given now w.db u w'.db
  unfolding register_body pure
  register_body_ok q username hash given now w {u} {a} {w'} h = bind_ok _ _ w h λ a1 w1 passed h1.
      bind_ok _ _ w1 h1 λ id w2 made h2. bind_ok _ _ w2 h2 λ _ w3 stored h3.
        bind_ok _ _ w3 h3 λ _ w4 paid h4.
          let (admits, db1) = admit_registration-Admits p q username given now w passed in
          let (id_eq, same) = gets_ok _ w1 made in
          let db2 : w2.db ≡ w.db = ap (λ (w : World). w.db) same ∙ db1 in
          let s = run_ok p _ w2 (rescue_ok _ _ w2 renamed_error_fails stored) in
          let (new_id, new_name, tables) = insert_user_did _ w2.db s.did in
          let u_eq : u ≡ record { id = id; username = username; role = role_user } = cc h4 in
          let end : w'.db ≡ w4.db = cc h4 in
          let at_id : id ≡ u.id = ap (λ (u : User). u.id) (sym u_eq) in
          record {
            invite = a1.invite;
            admits = admits;
            new_id = rw (← at_id) (rw (← db2) new_id);
            new_name = rw (← db2) new_name;
            principal =
                subst (λ i. u ≡ record { id = i; username = username; role = role_user }) at_id
                  u_eq;
            tables = rw (← at_id) (
                rw (← db2) (
                  end
                  ∙ (consume_ok a1.invite id now w3 paid ∙ ap (redeemed a1.invite id now) tables)));
          }

  record_redemption_db :
      (u : User) (invite : Option String) (w : World) {a : Unit {0}} {w' : World}
      → record_redemption p u invite w ≡ (ok a, w')
      → w'.db ≡ w.db
  unfolding pure
  record_redemption_db u none w h = cc h
  record_redemption_db u (some invite) w h = record_event_db p _ w h

  -- Where the random source and Argon2id give bytes and keys of the length that is asked for: a
  -- registration that succeeds has a well-formed name and a password of 8 to 128 bytes, was
  -- admitted (as the first account of all, or below the cap by an open mode, or below the cap by an
  -- unused, unrevoked, unexpired invite of the code), and has added one row with a new id, a new
  -- name, the role "user", the time of the transaction and a hash that the password verifies
  -- against, has used up the invite that admitted it, and has changed nothing else in the tables.
  pub register_ok :
      (sv : Service) (username : String) (password given : Bytes) (w : World) {u : User}
      {w' : World}
      → IsPasswordLawful p
      → register p sv username password given w ≡ (ok u, w')
      → (hash : Bytes) × (is_username username ≡ true)
        × ((8 ≤ length password) × (length password ≤ 128))
        × (verify_password p password hash ≡ ok true)
        × Registered p sv.policy username hash given (p.now (suc w.step)) w.db u w'.db
  unfolding register pure
  register_ok sv username password given w {u} {w'} law h = pass_ok _ _ _ w h λ named_well h1.
      pass_ok _ _ _ w h1 λ strong h2. bind_ok _ _ w h2 λ hash w1 hashed h3.
        bind_ok _ _ w1 h3 λ now w2 read h4. bind_ok _ _ w2 h4 λ (u1, a) w3 ran h5.
          bind_ok _ _ w3 h5 λ _ w4 recorded h6. bind_ok _ _ w4 h6 λ _ w5 paid h7.
            transaction_ok p _ w2 ran λ w6 did same.
              let (now_eq, same2) = gets_ok _ w1 read in
              let w2_eq = same2 ∙ hash_password-tick p password w hashed in
              let r = register_body_ok sv.policy username hash given now (tick w2) did in
              let time : now ≡ p.now (suc w.step) =
                now_eq
                ∙ ap (λ (w : World). p.now w.step) (hash_password-tick p password w hashed) in
              let end : w6.db ≡ w'.db = sym (
                cc (
                  h7,
                  record_redemption_db u1 a.invite w4 paid,
                  record_event_db p _ w3 recorded,
                  ap (λ (w : World). w.db) same,
                )) in
              let u_eq : u1 ≡ u = cc h7 in
              (
                hash,
                ground arith,
                policy-lengths password strong,
                verify_password-hash_password p law password hash w w1 hashed,
                subst (λ t. Registered p sv.policy username hash given t w.db u w'.db) time
                    (subst (λ d. Registered p sv.policy username hash given now d u w'.db)
                      (ap (λ (w : World). w.db) w2_eq)
                      (subst (λ v. Registered p sv.policy username hash given now w2.db v w'.db)
                        u_eq
                        (subst (λ d. Registered p sv.policy username hash given now w2.db u1 d) end
                          r))),
              )
