-- ===== src/Auth/Registration/Admitted.antt =====
-- Who is admitted, and what an admission leaves.
use securevault.Effect.Runs.{call_ok, query_ok}
use securevault.Effect.Bind.{bind_ok}
use securevault.Auth.Sessions.{hash_token}
use securevault.Auth.Invites.{is_open}
use securevault.Auth.Codes.{normalize_invite_code}
use securevault.Database.Table.{find}
use securevault.Effect.{tick, query, World, pure, raise}
use securevault.Database.Schema.{InviteRow, Db}
use securevault.Auth.Policy.{mode_invite, mode_closed, is_full, RegistrationPolicy}
use securevault.Auth.Registration.{
  admit_found, deny_registration, Admission, select_invite, admit_registration, admit_by_mode,
  admit_invited,
}
use securevault.Base.{
  ltb, if◌then◌else◌, Bool-cases, Option-cases, ◌==◌, nat_eq, string_eq, Bytes, bytes_eq, eq_cases,
  length, Error, user_limit_reached, ok, ℕ, ◌<◌, String, ◌≡◌, sym, ap, ◌∙◌, ◌≢◌, ◌⊎◌, inl, inr,
  true, false, Option, none, some, [], arith,
}
use mathlib.Core.Path.{subst}
use securevault.Platform.{Platform}

-- The cap on the number of accounts leaves room for one more.
abbrev pub HasRoom : RegistrationPolicy → Db → Type 0
HasRoom q d = (q.max_users ≡ 0) ⊎ (length d.users < q.max_users)

-- What admits an account, and the invite that pays for it: the first account of all, the mode that
-- is neither closed nor by invite, or an invite of this code that is unused, not revoked and not
-- expired.
pub data Admits (p : Platform) (q : RegistrationPolicy) (given : Bytes) (now : ℕ) (d : Db)
    : Option String → Type 0 where
  bootstrap : length d.users ≡ 0 → Admits p q given now d none
  unrestricted :
      HasRoom q d → q.mode ≢ mode_closed → q.mode ≢ mode_invite → Admits p q given now d none
  invited :
      HasRoom q d
      → q.mode ≡ mode_invite
      → (i : InviteRow)
      → find (λ r. r.code_hash) (hash_token p (normalize_invite_code p given)) d.invites ≡ some i
      → is_open i ≡ true
      → now < i.expires_at
      → Admits p q given now d (some i.id)

room : (q : RegistrationPolicy) (d : Db) → is_full q (length d.users) ≡ false → HasRoom q d
room q d h = elim (Bool-cases (ltb 0 q.max_users)) [
  | inl some_cap ↦ inr (ground arith)
  | inr no_cap ↦ inl (ground arith)
]

pub record Redeemable (hash : Bytes) (now : ℕ) (d : Db) (id : String) : Type 0 where
  pub row : InviteRow
  pub found : find (λ r. r.code_hash) hash d.invites ≡ some row
  pub named : row.id ≡ id
  pub unused : is_open row ≡ true
  pub unexpired : now < row.expires_at

select_invite-Redeemable :
    (hash : Bytes) (now : ℕ) (d : Db) {id : String}
    → select_invite hash now d ≡ some id
    → Redeemable hash now d id
unfolding select_invite
select_invite-Redeemable hash now d h =
    elim (Option-cases (find (λ r. r.code_hash) hash d.invites)) [
      | inl absent ↦ absurd (ground arith)
      | inr (row, found) ↦ record {
        row = row;
        found = found;
        named = ground arith;
        unused = ground arith;
        unexpired = ground arith;
      }
    ]

module _ (p : Platform) where
  deny_registration_fails :
      (username reason : String) (e : Error) (w : World) {a : Admission} {w' : World}
      → deny_registration p username reason e w ≢ (ok a, w')
  unfolding raise
  deny_registration_fails username reason e w h = bind_ok _ _ w h λ _ w1 recorded h1. absurd (cc h1)

  admit_invited-Redeemable :
      (username : String) (given : Bytes) (now : ℕ) (w : World) {a : Admission} {w' : World}
      → admit_invited p username given now w ≡ (ok a, w')
      → (id : String) × (a.invite ≡ some id)
        × Redeemable (hash_token p given) now w.db id
        × (w'.db ≡ w.db)
  unfolding admit_invited pure
  admit_invited-Redeemable username given now w {a} {w'} h = elim (Bool-cases (given == [])) [
    | inl empty ↦ let h' = rw (empty) at h in absurd (deny_registration_fails username _ _ w h')
    | inr nonempty ↦
        let h' = rw (nonempty) at h in
        bind_ok _ _ w h' λ found w1 asked h1. chosen found w1 asked h1
  ]
    where
      chosen :
          (found : Option String) (w1 : World)
          → query p (select_invite (hash_token p given) now) w ≡ (ok found, w1)
          → admit_found p username found w1 ≡ (ok a, w')
          → (id : String) × (a.invite ≡ some id)
            × Redeemable (hash_token p given) now w.db id
            × (w'.db ≡ w.db)
      chosen none w1 asked h1 = absurd (deny_registration_fails username _ _ w1 h1)
      chosen (some id) w1 asked h1 =
          let (value, same) = query_ok p _ w asked in
          (
            id,
            cc h1,
            select_invite-Redeemable _ now w.db (sym value),
            cc (h1, ap (λ (w : World). w.db) same),
          )

  admit_by_mode-Admits :
      (q : RegistrationPolicy) (username : String) (given : Bytes) (now : ℕ) (w : World)
      {a : Admission} {w' : World}
      → HasRoom q w.db
      → admit_by_mode p q username given now w ≡ (ok a, w')
      → Admits p q given now w.db a.invite × (w'.db ≡ w.db)
  unfolding admit_by_mode pure
  admit_by_mode-Admits q username given now w {a} {w'} r h = elim (eq_cases q.mode mode_closed) [
    | inl (closed, _) ↦
        let h' = rw (closed) at h in absurd (deny_registration_fails username _ _ w h')
    | inr (unclosed, not_closed) ↦ elim (eq_cases q.mode mode_invite) [
      | inl (by_invite, is_invite) ↦
          let h' = rw (unclosed, by_invite) at h in
          let (id, at, v, same) = admit_invited-Redeemable username _ now w h' in
          (
            subst (Admits p q given now w.db) (ap some v.named ∙ sym at)
                (invited r is_invite v.row v.found v.unused v.unexpired),
            same,
          )
      | inr (uninvited, not_invite) ↦
          let h' = rw (unclosed, uninvited) at h in
          (subst (Admits p q given now w.db) (cc h') (unrestricted r not_closed not_invite), cc h')
    ]
  ]

  pub admit_registration-Admits :
      (q : RegistrationPolicy) (username : String) (given : Bytes) (now : ℕ) (w : World)
      {a : Admission} {w' : World}
      → admit_registration p q username given now w ≡ (ok a, w')
      → Admits p q given now w.db a.invite × (w'.db ≡ w.db)
  unfolding admit_registration pure
  admit_registration-Admits q username given now w {a} {w'} h = bind_ok _ _ w h λ _ w1 locked h1.
      bind_ok _ _ w1 h1 λ n w2 counted h2.
        let (n_eq, tick_eq) = query_ok p _ w1 counted in
        let here = ap (λ (w : World). w.db) (tick_eq ∙ ap tick (call_ok p w locked)) in
        let size : n ≡ length w.db.users =
          n_eq ∙ ap (λ (w : World). length w.db.users) (call_ok p w locked) in
        decided n w2 here size h2
    where
      decided :
          (n : ℕ) (w2 : World)
          → w2.db ≡ w.db
          → n ≡ length w.db.users
          → (if n == 0
                then pure (record { reason = "bootstrap"; invite = none })
                else if is_full q n
                then deny_registration p username "user_limit" user_limit_reached
                else admit_by_mode p q username given now)
              w2
            ≡ (ok a, w')
          → Admits p q given now w.db a.invite × (w'.db ≡ w.db)
      decided n w2 here size h = elim (eq_cases n 0) [
        | inl (first, is_zero) ↦
            let h' = rw (first) at h in
            (
              subst (Admits p q given now w.db) (cc h') (bootstrap (sym size ∙ is_zero)),
              cc (h', here),
            )
        | inr (later, _) ↦ elim (Bool-cases (is_full q n)) [
          | inl full ↦
              let h' = rw (later, full) at h in absurd (deny_registration_fails username _ _ w2 h')
          | inr free ↦
              let h' = rw (later, free) at h in
              let has_room = room q w2.db (rw (here) (rw (← size) free)) in
              let (admitted, same) = admit_by_mode-Admits q username given now w2 has_room h' in
              (subst (λ d. Admits p q given now d a.invite) here admitted, same ∙ here)
        ]
      ]
