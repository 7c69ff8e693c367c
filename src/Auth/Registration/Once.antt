-- ===== src/Auth/Registration/Once.antt =====
-- A code pays for one account.
use securevault.Auth.Registration.Limits.{length-redeemed}
use securevault.Auth.Registration.{new_user_row, register}
use securevault.Platform.Laws.{IsPasswordLawful}
use securevault.Auth.User.{User}
use securevault.Auth.Codes.{normalize_invite_code}
use securevault.Auth.Registration.Registered.{register_ok, redeemed}
use securevault.Effect.{World}
use securevault.Auth.Policy.{mode_invite, RegistrationPolicy}
use securevault.Database.Table.{update, find}
use securevault.Database.Schema.{UserRow, Db, InviteRow}
use securevault.Auth.Sessions.{hash_token, Service}
use securevault.Auth.Registration.Admitted.{Admits, bootstrap, unrestricted, invited}
use mathlib.Core.Path.{subst}
use securevault.Base.{
  is_some, Eq, eq_iff, eq_refl, nat_eq, string_eq, Bytes, bytes_eq, length, ok, ℕ, suc, ◌<◌, String,
  ◌≡◌, refl, sym, ap, ◌∙◌, ◌≢◌, true, Option, some, List, [], ◌∷◌, arith,
}
use securevault.Platform.{Platform}

-- The row of a key, after an update of it by another column.
find-update_of {ℓ κ μ} :
    {A : Type ℓ} {J : Type κ} {K : Type μ} ⦃ej : Eq J⦄ ⦃ek : Eq K⦄ (column : A → J) (other : A → K)
    (f : A → A) (j : J) (x : A) (xs : List A)
    → ((y : A) → column (f y) ≡ column y)
    → find column j xs ≡ some x
    → find column j (update other (other x) f xs) ≡ some (f x)
find-update_of column other f j x [] same h = absurd (cc h)
find-update_of column other f j x (y ∷ ys) same h = ground (
  arith,
  same y,
  eq_iff (column y) j,
  eq_iff (column (f y)) j,
  eq_refl (other x),
  find-update_of column other f j x ys same,
)

-- The row that a code selects, once it is used up.
pub record IsSpent (hash : Bytes) (d : Db) : Type 0 where
  pub row : InviteRow
  pub found : find (λ r. r.code_hash) hash d.invites ≡ some row
  pub used : is_some row.used_at ≡ true

redeemed-IsSpent :
    (hash : Bytes) (i : InviteRow) (user : String) (now : ℕ) (d : Db)
    → find (λ r. r.code_hash) hash d.invites ≡ some i
    → IsSpent hash (redeemed (some i.id) user now d)
redeemed-IsSpent hash i user now d found = record {
  row = record i { used_by = some user; used_at = some now };
  found = find-update_of (λ r. r.code_hash) (λ r. r.id) _ hash i d.invites (λ y. refl) found;
  used = refl;
}

module _ (p : Platform) (q : RegistrationPolicy) (given : Bytes) where
  abbrev hash_of_code : Bytes
  hash_of_code = hash_token p (normalize_invite_code p given)

  Admits-IsSpent :
      (now : ℕ) (d : Db) (invite : Option String) (user : String) (us : List UserRow)
      → q.mode ≡ mode_invite
      → 0 < length d.users
      → Admits p q given now d invite
      → IsSpent hash_of_code (redeemed invite user now (record d { users = us }))
  Admits-IsSpent now d _ user us by_invite some_user (bootstrap first) = absurd (omega arith)
  Admits-IsSpent now d _ user us by_invite some_user (unrestricted _ _ other) =
      absurd (other by_invite)
  Admits-IsSpent now d _ user us by_invite some_user (invited _ _ i found _ _) =
      redeemed-IsSpent hash_of_code i user now (record d { users = us }) found

  IsSpent-Admits :
      (now : ℕ) (d : Db) (invite : Option String)
      → q.mode ≡ mode_invite
      → 0 < length d.users
      → IsSpent hash_of_code d
      → ¬ Admits p q given now d invite
  IsSpent-Admits now d _ by_invite some_user s (bootstrap first) = absurd (omega arith)
  IsSpent-Admits now d _ by_invite some_user s (unrestricted _ _ other) = other by_invite
  IsSpent-Admits now d _ by_invite some_user s (invited _ _ i found unused _) =
      let same : s.row ≡ i = cc (found, s.found) in
      let used : is_some i.used_at ≡ true =
        ap (λ (r : InviteRow). is_some r.used_at) (sym same) ∙ s.used in
      ground (arith, used, unused)

-- Under the same laws, in invite mode and with an account already there: once a registration with a
-- code has succeeded, no registration on the tables that it left succeeds with the same code, in
-- whatever spelling, whoever asks.
pub register-once :
    (p : Platform) (sv : Service) (first second : String) (password other given again : Bytes)
    (w w2 : World) {u : User} {w' : World}
    → IsPasswordLawful p
    → sv.policy.mode ≡ mode_invite
    → 0 < length w.db.users
    → register p sv first password given w ≡ (ok u, w')
    → w2.db ≡ w'.db
    → normalize_invite_code p again ≡ normalize_invite_code p given
    → (v : User) (w3 : World) → register p sv second other again w2 ≢ (ok v, w3)
register-once p sv first second password other given again w w2 {u} {w'} law by_invite some_user h
      same same_code v w3 h2 =
    let (hash, _, _, _, r) = register_ok p sv first password given w law h in
    let (hash2, _, _, _, r2) = register_ok p sv second other again w2 law h2 in
    let now = p.now (suc w.step) in
    let users = new_user_row p u.id first hash now ∷ w.db.users in
    let spent =
      Admits-IsSpent p sv.policy given now w.db r.invite u.id users by_invite some_user r.admits in
    let here = same ∙ r.tables in
    let spent_again : IsSpent (hash_of_code p sv.policy again) w2.db =
      subst (λ k. IsSpent (hash_token p k) w2.db) (sym same_code) (rw (here) spent) in
    IsSpent-Admits p sv.policy again _ w2.db r2.invite by_invite
      (rw (here, length-redeemed) (omega arith)) spent_again r2.admits
