-- ===== src/Auth/Issued.antt =====
-- What issuing an invite leaves in the tables.
use securevault.Audit.Laws.{record_event_db}
use securevault.Effect.Runs.{run_ok}
use securevault.Auth.Password.Steady.{random_bytes-Steady}
use securevault.Text.{trim_space}
use securevault.Effect.RollsBack.{Steady-eq}
use securevault.Effect.Bind.{gets_ok, or_raise_ok, bind_ok, pass_ok}
use securevault.Auth.Sessions.{hash_token}
use securevault.Database.Table.{find}
use securevault.Database.Schema.{Db, InviteRow}
use securevault.Auth.User.{is_admin, User}
use securevault.Auth.Invites.{
  invite_code_bytes, invite_note_max_len, is_open, invite_max_ttl, Invite, invite_min_ttl,
  invite_ttl, create_invite, insert_invite,
}
use securevault.Auth.Codes.{encode_base32}
use securevault.Effect.{World, raise, pure}
use securevault.Base.{
  nat_eq, string_eq, Bytes, bytes_eq, length, ℤ, ok, pos, negsuc, ℕ, ◌+◌, ◌≤◌, String, ◌≡◌, refl,
  ap, ◌∙◌, true, Option, none, some, ◌∷◌, arith,
}
use securevault.Platform.{Platform}

-- One more invite, of the code that is returned: it is kept as a hash, is open, was issued by the
-- administrator, and lives for one minute to 30 days.
pub record Issued (p : Platform) (admin : User) (d : Db) (given : Bytes) (i : Invite) (d' : Db)
    : Type 0 where
  pub row : InviteRow
  pub hash : row.code_hash ≡ hash_token p given
  pub new_code : find (λ r. r.code_hash) row.code_hash d.invites ≡ none
  pub unused : is_open row ≡ true
  pub issuer : row.created_by ≡ admin.id
  pub note : length row.note ≤ invite_note_max_len
  pub lifetime :
      (row.created_at + invite_min_ttl ≤ row.expires_at)
      × (row.expires_at ≤ row.created_at + invite_max_ttl)
  pub shown : (i.id ≡ row.id) × (i.expires_at ≡ row.expires_at)
  pub tables : d' ≡ record d { invites = row ∷ d.invites }

invite_ttl_within :
    (z : ℤ) {t : ℕ} → invite_ttl z ≡ some t → (invite_min_ttl ≤ t) × (t ≤ invite_max_ttl)
unfolding invite_ttl
invite_ttl_within (negsuc n) h = absurd (cc h)
invite_ttl_within (pos n) {t} h = ground arith

insert_invite_did :
    (i : InviteRow) (d : Db) {a : Unit {0}} {d' : Db}
    → insert_invite i d ≡ ok (a, d')
    → (find (λ r. r.code_hash) i.code_hash d.invites ≡ none)
      × (d' ≡ record d { invites = i ∷ d.invites })
unfolding insert_invite
insert_invite_did i d h = ground arith

abbrev issued_row : Platform → User → Bytes → ℕ → Bytes → ℕ → String → InviteRow
issued_row p admin note lifetime raw now id = record {
  id = id;
  code_hash = hash_token p (encode_base32 raw);
  note = trim_space note;
  created_by = admin.id;
  created_at = now;
  expires_at = now + lifetime;
  used_by = none;
  used_at = none;
  revoked_at = none;
}

-- An invite is issued only to an administrator; its row has the hash of the code that is returned,
-- which no invite had, a note of at most 64 bytes and a lifetime of one minute to 30 days, is
-- unused and not revoked, and is all that is added to the tables.
pub create_invite_ok :
    (p : Platform) (caller : Option User) (note : Bytes) (ttl : ℤ) (w : World) {given : Bytes}
    {i : Invite} {w' : World}
    → create_invite p caller note ttl w ≡ (ok (given, i), w')
    → (admin : User) × (caller ≡ some admin)
      × (is_admin admin ≡ true)
      × Issued p admin w.db given i w'.db
unfolding create_invite pure raise
create_invite_ok p none note ttl w h = absurd (cc h)
create_invite_ok p (some admin) note ttl w {given} {i} {w'} h = pass_ok _ _ _ w h λ admitted h1.
    bind_ok _ _ w h1 λ lifetime w1 timed h2. pass_ok _ _ _ w1 h2 λ short h3.
      bind_ok _ _ w1 h3 λ raw w2 drawn h4. bind_ok _ _ w2 h4 λ now w3 read h5.
        bind_ok _ _ w3 h5 λ id w4 made h6. bind_ok _ _ w4 h6 λ _ w5 ran h7.
          bind_ok _ _ w5 h7 λ _ w6 recorded h8.
            let (ttl_eq, same1) = or_raise_ok _ _ w timed in
            let (low, high) = invite_ttl_within ttl ttl_eq in
            let db2 : w2.db ≡ w.db =
              Steady-eq _ w1 (random_bytes-Steady p invite_code_bytes) drawn
              ∙ ap (λ (w : World). w.db) same1 in
            let db4 : w4.db ≡ w.db =
              ap (λ (w : World). w.db) ((gets_ok _ w3 made).1 ∙ (gets_ok _ w2 read).1) ∙ db2 in
            let (fresh, tables) = insert_invite_did _ w4.db (run_ok p _ w4 ran).did in
            let end : w'.db ≡ w5.db = cc (h8, record_event_db p _ w5 recorded) in
            (
              admin,
              refl,
              ground (arith, admitted),
              record {
                row = issued_row p admin note lifetime raw now id;
                hash = ap (hash_token p) (cc h8);
                new_code = rw (← db4) fresh;
                unused = refl;
                issuer = refl;
                note = ground (arith, short);
                lifetime = (omega (arith, low), omega (arith, high));
                shown = (cc h8, cc h8);
                tables = rw (← db4) (end ∙ tables);
              },
            )
