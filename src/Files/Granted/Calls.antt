-- ===== src/Files/Granted/Calls.antt =====
-- What a share and a revocation leave: who may make them, and the one grant that they change.
use securevault.Files.Granted.{
  held, IsOwners, IsRegranted, can_share-owner, upsert_grant-IsRegranted, delete_grant-IsRegranted,
}
use securevault.Audit.Laws.{record_event-Sure, record_event_db}
use securevault.Files.Quiet.{query-Keeps, authorize-Keeps}
use securevault.Effect.Runs.{run_ok, query_ok}
use securevault.Files.Authorized.{authorize_ok}
use securevault.Effect.Keeps.{Keeps-or_raise, Keeps-gets, Keeps-raise_if, Keeps-call}
use securevault.Effect.Bind.{or_raise_ok, bind_ok, pass_ok}
use securevault.Effect.RollsBack.{RollsBack-bind-Sure, Steady-of_Keeps, RollsBack-bind, RollsBack}
use securevault.Files.Sharing.{revoke, share}
use securevault.Files.Shared.{IsRole}
use securevault.Platform.{Platform}
use securevault.Effect.{◌>>◌, M, Statement, raise, raise_if, run, write_back, ◌>>=◌, World}
use securevault.Database.Table.{find}
use securevault.Files.Statements.{select_user_id}
use securevault.Auth.User.{User}
use securevault.Database.Schema.{UserRow, Db}
use securevault.Authz.{role_viewer, role_editor, NodeAcl, action_share}
use securevault.Base.{
  Bool-cases, Option-cases, ◌==◌, eq_iff, nat_eq, string_eq, bytes_eq, Error, Result, validation,
  ok, err, String, ◌≡◌, refl, sym, ap, ◌∙◌, ◌≢◌, ◌⊎◌, inl, inr, Bool, true, false, not, ◌&&◌, none,
  some, arith,
}

-- What a call to share comes to: an error, which is a validation error for another role, or a grant
-- to a user other than the owner.
abbrev pub IsShareOutcome :
    User → String → String → String → Db → Result (Unit {0}) × World → Type 0
IsShareOutcome u id name role d (err e, w') = (w'.db ≡ d) × (IsRole role ⊎ (e ≡ validation))
IsShareOutcome u id name role d (ok _, w') =
    IsRole role
    × (o : IsOwners u id name d) × (o.grantee.id ≢ o.node.owner_id)
    × IsRegranted id o.grantee.id (some role) d w'.db

known-IsRole :
    (role : String) → (not (role == role_editor) && not (role == role_viewer)) ≡ false → IsRole role
known-IsRole role h = ground (arith, h, eq_iff role "editor", eq_iff role "viewer")

select_user_id-found :
    (name : String) (d : Db) {user : String}
    → select_user_id name d ≡ some user
    → (a : UserRow) × (find (λ a. a.username) name d.users ≡ some a) × (a.id ≡ user)
unfolding select_user_id
select_user_id-found name d h = elim (Option-cases (find (λ a. a.username) name d.users)) [
  | inl absent ↦ absurd (ground arith)
  | inr (a, named) ↦ (a, named, ground arith)
]

RollsBack-write_back : {A : Type 0} (r : Result (A × Db)) → RollsBack (write_back r)
unfolding write_back
RollsBack-write_back (ok (a, d)) = record { at = λ w e w' h. absurd (cc h) }
RollsBack-write_back (err x) = record { at = λ w e w' h. cc h }

refused_role :
    {A : Type 0} (c : Bool) (m : M A) (w : World) {e : Error} {w' : World}
    → c ≡ true
    → (raise_if c validation >> m) w ≡ (err e, w')
    → e ≡ validation
unfolding ◌>>=◌ raise_if raise
refused_role c m w unknown h = let h' = rw (unknown) at h in cc h'

module _ (p : Platform) where
  RollsBack-run : {A : Type 0} (s : Statement A) → RollsBack (run p s)
  unfolding run
  RollsBack-run s =
      RollsBack-bind _ _ (Steady-of_Keeps _ λ d. Keeps-call p λ w h. h)
        λ _. RollsBack-bind _ _ (Steady-of_Keeps _ λ d. Keeps-gets _) λ r. RollsBack-write_back r

  share-RollsBack : (u : User) (id name role : String) → RollsBack (share p u id name role)
  unfolding share
  share-RollsBack u id name role =
      RollsBack-bind _ _ (Steady-of_Keeps _ λ d. Keeps-raise_if _ _) λ _.
        RollsBack-bind _ _ (Steady-of_Keeps _ λ d. authorize-Keeps p (λ x _. x ≡ d) u id _) λ st.
          RollsBack-bind _ _ (Steady-of_Keeps _ λ d. query-Keeps p (λ x _. x ≡ d) _) λ found.
            RollsBack-bind _ _ (Steady-of_Keeps _ λ d. Keeps-or_raise _ _) λ grantee.
              RollsBack-bind _ _ (Steady-of_Keeps _ λ d. Keeps-raise_if _ _)
                λ _. RollsBack-bind-Sure _ _ (RollsBack-run _) λ _. record_event-Sure p _

  share-refused :
      (u : User) (id name role : String) (w : World) {e : Error} {w' : World}
      → (not (role == role_editor) && not (role == role_viewer)) ≡ true
      → share p u id name role w ≡ (err e, w')
      → e ≡ validation
  unfolding share
  share-refused u id name role w unknown h = refused_role _ _ w unknown h

  share_ok :
      (u : User) (id name role : String) (w : World) {a : Unit {0}} {w' : World}
      → share p u id name role w ≡ (ok a, w')
      → IsShareOutcome u id name role w.db (ok a, w')
  unfolding share
  share_ok u id name role w {a} {w'} h = pass_ok _ _ _ w h λ known h1.
      bind_ok _ _ w h1 λ st w1 entered h2. bind_ok _ _ w1 h2 λ found w2 asked h3.
        bind_ok _ _ w2 h3 λ grantee w3 there h4. pass_ok _ _ _ w3 h4 λ other h5.
          bind_ok _ _ w3 h5 λ _ w4 granted h6.
            let (l, may, db1) = authorize_ok p u id action_share w entered in
            let (found_eq, same2) = query_ok p _ w1 asked in
            let (some_eq, same3) = or_raise_ok found validation w2 there in
            let db3 : w3.db ≡ w.db = ap (λ (w : World). w.db) (same3 ∙ same2) ∙ db1 in
            let selected : select_user_id name w.db ≡ some grantee =
              rw (← db1) (sym found_eq ∙ some_eq) in
            let (row, named, row_id) = select_user_id-found name w.db selected in
            let after : w'.db ≡ w4.db = record_event_db p _ w4 h6 in
            let g = upsert_grant-IsRegranted _ w3.db (run_ok p _ w3 granted).did in
            let acl_owner : st.acl.owner_id ≡ l.node.owner_id =
              ap (λ (acl : NodeAcl). acl.owner_id) l.acl in
            (
              known-IsRole role known,
              record {
                node = l.node;
                found = l.node_found;
                owner = can_share-owner u st.acl may ∙ acl_owner;
                grantee = row;
                named = named;
              },
              λ e. absurd (ground (arith, other, eq_iff grantee st.owner_id, e, row_id, l.owner)),
              rw (row_id, after, ← db3) g,
            )

  -- However a call to share ends: with an error it changes no table but the audit log, and the
  -- error is a validation error where the role is not editor or viewer; with success, the role is
  -- one of the two, the caller owns the node, the name is that of a user other than the owner, this
  -- user has the role on the node, and no other grant and no other table is changed.
  pub share-outcome :
      (u : User) (id name role : String) (w : World)
      → IsShareOutcome u id name role w.db (share p u id name role w)
  share-outcome u id name role w = go (share p u id name role w) refl
    where
      go :
          (x : Result (Unit {0}) × World)
          → share p u id name role w ≡ x
          → IsShareOutcome u id name role w.db x
      go (ok a, w') h = share_ok u id name role w h
      go (err e, w') h = (
        (share-RollsBack u id name role).at w e w' h,
        elim (Bool-cases (not (role == role_editor) && not (role == role_viewer))) [
          | inl unknown ↦ inr (share-refused u id name role w unknown h)
          | inr known ↦ inl (known-IsRole role known)
        ],
      )

  -- A revocation that succeeds is by the owner of the node and for a user of the name who had a
  -- grant on it; after it this user has none on it, and no other grant and no other table is
  -- changed.
  pub revoke_ok :
      (u : User) (id name : String) (w : World) {a : Unit {0}} {w' : World}
      → revoke p u id name w ≡ (ok a, w')
      → (o : IsOwners u id name w.db) × (held w.db.grants id o.grantee.id ≢ none)
        × IsRegranted id o.grantee.id none w.db w'.db
  unfolding revoke
  revoke_ok u id name w {a} {w'} h = bind_ok _ _ w h λ st w1 entered h1.
      bind_ok _ _ w1 h1 λ rows w2 ran h2. pass_ok _ _ _ w2 h2 λ some_gone h3.
        let (l, may, db1) = authorize_ok p u id action_share w entered in
        let (row, named, before, g) =
          delete_grant-IsRegranted id name w1.db (run_ok p _ w1 ran).did some_gone in
        let after : w'.db ≡ w2.db = record_event_db p _ w2 h3 in
        let acl_owner : st.acl.owner_id ≡ l.node.owner_id =
          ap (λ (acl : NodeAcl). acl.owner_id) l.acl in
        (
          record {
            node = l.node;
            found = l.node_found;
            owner = can_share-owner u st.acl may ∙ acl_owner;
            grantee = row;
            named = rw (← db1) named;
          },
          rw (← db1) before,
          rw (after, ← db1) g,
        )
