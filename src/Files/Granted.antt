-- ===== src/Files/Granted.antt =====
-- The grants as a map from a node and a user to a role, and the two statements that change it.
pub mod Calls
use securevault.Audit.Laws.{record_event-Sure, record_event_db}
use securevault.Files.Quiet.{query-Keeps, authorize-Keeps}
use securevault.Effect.Runs.{run_ok, query_ok}
use securevault.Files.Authorized.{authorize_ok}
use securevault.Effect.Keeps.{Keeps-or_raise, Keeps-gets, Keeps-raise_if, Keeps-call}
use securevault.Effect.Bind.{or_raise_ok, bind_ok, pass_ok}
use securevault.Effect.RollsBack.{RollsBack-bind-Sure, Steady-of_Keeps, RollsBack-bind, RollsBack}
use securevault.Files.Sharing.{revoke, share}
use securevault.Files.Shared.{IsRole}
use securevault.Platform.{Platform}
use securevault.Effect.{◌>>◌, M, Statement, raise, raise_if, run, write_back, ◌>>=◌, World}
use securevault.Database.Table.{find}
use securevault.Files.Statements.{
  select_user_id, upsert_grant, delete_grant, node_of, set_role, is_grant,
}
use securevault.Auth.User.{User}
use securevault.Database.Schema.{UserRow, NodeRow, Db, GrantRow}
use securevault.Authz.Laws.{as_grantee, as_owner, can-iff-Permits, Permits, RoleAction}
use securevault.Authz.{role_viewer, role_editor, NodeAcl, can, action_share}
use securevault.Base.{
  if◌then◌else◌, Bool-cases, Option-cases, ◌==◌, eq_iff, eq_refl, nat_eq, string_eq, bytes_eq, keep,
  count, any, Fault, ok, ℕ, ◌-◌, String, ◌≡◌, refl, ◌≢◌, ◌⊎◌, inl, inr, Bool, true, false, not,
  Option, none, some, List, [], ◌∷◌, arith,
}

-- The role that a user has been granted on a node.
abbrev pub held : List GrantRow → String → String → Option String
held [] node user = none
held (g ∷ gs) node user = if is_grant node user g then some g.role else held gs node user

-- A request to share by the owner of a node, with a user of that name.
pub record IsOwners (u : User) (id name : String) (d : Db) : Type 0 where
  pub node : NodeRow
  pub found : node_of d id ≡ some node
  pub owner : u.id ≡ node.owner_id
  pub grantee : UserRow
  pub named : find (λ a. a.username) name d.users ≡ some grantee

-- The grants are changed for one user on one node, and no other table is.
pub record IsRegranted (id user : String) (role : Option String) (d d' : Db) : Type 0 where
  pub given : held d'.grants id user ≡ role
  pub kept : (n v : String) → (n ≢ id) ⊎ (v ≢ user) → held d'.grants n v ≡ held d.grants n v
  pub rest : d' ≡ record d { grants = d'.grants }

no_share : (role : String) → ¬ RoleAction role action_share
no_share role (inl (_, inl (inl e))) = absurd (cc e)
no_share role (inl (_, inl (inr e))) = absurd (cc e)
no_share role (inl (_, inr e)) = absurd (cc e)
no_share role (inr (_, inl e)) = absurd (cc e)
no_share role (inr (_, inr e)) = absurd (cc e)

-- Only an owner may share.
pub can_share-owner :
    (u : User) (acl : NodeAcl) → can (some u) acl action_share ≡ true → u.id ≡ acl.owner_id
can_share-owner u acl h = go ((can-iff-Permits (some u) acl action_share).0 h)
  where
    go : Permits acl action_share (some u) → u.id ≡ acl.owner_id
    go (as_owner known same h) = same
    go (as_grantee role known other e h) = absurd (no_share role h)

held-set_role :
    (id user role : String) (gs : List GrantRow)
    → any (is_grant id user) gs ≡ true
    → held (set_role id user role gs) id user ≡ some role
held-set_role id user role [] h = absurd (cc h)
held-set_role id user role (g ∷ gs) h = ground (arith, held-set_role id user role gs)

held-set_role_other :
    (id user role n v : String) (gs : List GrantRow)
    → (n ≢ id) ⊎ (v ≢ user)
    → held (set_role id user role gs) n v ≡ held gs n v
held-set_role_other id user role n v [] h = refl
held-set_role_other id user role n v (g ∷ gs) h = ground (
  arith,
  h,
  eq_iff g.node_id id,
  eq_iff g.grantee_id user,
  eq_iff g.node_id n,
  eq_iff g.grantee_id v,
  held-set_role_other id user role n v gs h,
)

held-keep :
    (id user : String) (gs : List GrantRow)
    → held (keep (λ g. not (is_grant id user g)) gs) id user ≡ none
held-keep id user [] = refl
held-keep id user (g ∷ gs) = ground (arith, held-keep id user gs)

held-keep_other :
    (id user n v : String) (gs : List GrantRow)
    → (n ≢ id) ⊎ (v ≢ user)
    → held (keep (λ g. not (is_grant id user g)) gs) n v ≡ held gs n v
held-keep_other id user n v [] h = refl
held-keep_other id user n v (g ∷ gs) h = ground (
  arith,
  h,
  eq_iff g.node_id id,
  eq_iff g.grantee_id user,
  eq_iff g.node_id n,
  eq_iff g.grantee_id v,
  held-keep_other id user n v gs h,
)

count-held : (n v : String) (gs : List GrantRow) → held gs n v ≡ none → count (is_grant n v) gs ≡ 0
count-held n v [] h = refl
count-held n v (g ∷ gs) h = ground (arith, count-held n v gs)

held-new :
    (g : GrantRow) (n v : String) (gs : List GrantRow)
    → (n ≢ g.node_id) ⊎ (v ≢ g.grantee_id)
    → held (g ∷ gs) n v ≡ held gs n v
held-new g n v gs h = ground (arith, h, eq_iff g.node_id n, eq_iff g.grantee_id v)

upserted_rows : GrantRow → List GrantRow → List GrantRow
upserted_rows g gs =
    if any (is_grant g.node_id g.grantee_id) gs
    then set_role g.node_id g.grantee_id g.role gs
    else g ∷ gs

upsert_grant-rows :
    (g : GrantRow) (d : Db) {a : Unit {0}} {d' : Db}
    → upsert_grant g d ≡ ok (a, d')
    → d' ≡ record d { grants = upserted_rows g d.grants }
unfolding upsert_grant upserted_rows
upsert_grant-rows g d h = ground arith

upserted_rows-held :
    (g : GrantRow) (gs : List GrantRow)
    → held (upserted_rows g gs) g.node_id g.grantee_id ≡ some g.role
unfolding upserted_rows
upserted_rows-held g gs = elim (Bool-cases (any (is_grant g.node_id g.grantee_id) gs)) [
  | inl there ↦ rw (there) (held-set_role g.node_id g.grantee_id g.role gs there)
  | inr fresh ↦ rw (fresh, eq_refl g.node_id, eq_refl g.grantee_id) refl
]

upserted_rows-kept :
    (g : GrantRow) (n v : String) (gs : List GrantRow)
    → (n ≢ g.node_id) ⊎ (v ≢ g.grantee_id)
    → held (upserted_rows g gs) n v ≡ held gs n v
unfolding upserted_rows
upserted_rows-kept g n v gs h = elim (Bool-cases (any (is_grant g.node_id g.grantee_id) gs)) [
  | inl there ↦ rw (there) (held-set_role_other g.node_id g.grantee_id g.role n v gs h)
  | inr fresh ↦ rw (fresh) (held-new g n v gs h)
]

pub upsert_grant-IsRegranted :
    (g : GrantRow) (d : Db) {a : Unit {0}} {d' : Db}
    → upsert_grant g d ≡ ok (a, d')
    → IsRegranted g.node_id g.grantee_id (some g.role) d d'
upsert_grant-IsRegranted g d h =
    let tables = upsert_grant-rows g d h in
    record {
      given = rw (tables) (upserted_rows-held g d.grants);
      kept = λ n v other. rw (tables) (upserted_rows-kept g n v d.grants other);
      rest = rw (tables) refl;
    }

pub delete_grant-IsRegranted :
    (id name : String) (d : Db) {rows : ℕ} {d' : Db}
    → delete_grant id name d ≡ ok (rows, d')
    → (rows == 0) ≡ false
    → (a : UserRow) × (find (λ a. a.username) name d.users ≡ some a)
      × (held d.grants id a.id ≢ none)
      × IsRegranted id a.id none d d'
unfolding delete_grant
delete_grant-IsRegranted id name d {rows} {d'} h some_gone =
    elim (Option-cases (find (λ a. a.username) name d.users)) [
      | inl absent ↦ absurd (ground arith)
      | inr (a, named) ↦
          let tables : d' ≡ record d { grants = keep (λ g. not (is_grant id a.id g)) d.grants } =
            ground arith in
          let gone : count (is_grant id a.id) d.grants ≡ rows = ground arith in
          (
            a,
            named,
            λ absent. absurd (ground (arith, some_gone, gone, count-held id a.id d.grants absent)),
            record {
              given = rw (tables) (held-keep id a.id d.grants);
              kept = λ n v other. rw (tables) (held-keep_other id a.id n v d.grants other);
              rest = rw (tables) refl;
            },
          )
    ]
