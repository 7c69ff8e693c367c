-- ===== src/Authz/Laws.antt =====
-- `can` decides the sharing model of the design, stated as a relation with no test in it.
use securevault.Base.{
  Option-cases, eq_iff, nat_eq, string_eq, bytes_eq, eq_cases, lookup, String, ◌≡◌, sym, ◌∙◌, ◌≢◌,
  ◌↔◌, ◌⊎◌, inl, inr, true, false, Option, none, some, arith,
}
use mathlib.Core.Bool.{false≢true}
use securevault.Auth.User.{User}
use securevault.Authz.{
  can, Action, action_view, action_download, action_rename, action_delete, action_share,
  role_editor, role_viewer, NodeAcl, role_allows, is_defined,
}

abbrev pub ViewerAction : Action → Type 0
ViewerAction a = (a ≡ action_view) ⊎ (a ≡ action_download)

abbrev pub EditorAction : Action → Type 0
EditorAction a = ViewerAction a ⊎ (a ≡ action_rename)

abbrev pub OwnerAction : Action → Type 0
OwnerAction a = EditorAction a ⊎ ((a ≡ action_delete) ⊎ (a ≡ action_share))

-- What a sharing role allows.
abbrev pub RoleAction : String → Action → Type 0
RoleAction role a =
    ((role ≡ role_editor) × EditorAction a) ⊎ ((role ≡ role_viewer) × ViewerAction a)

-- The sharing model: a known user acts as the owner, or else by the one role granted to them.
pub data Permits (acl : NodeAcl) (a : Action) : Option User → Type 0 where
  as_owner : {u : User} → u.id ≢ "" → u.id ≡ acl.owner_id → OwnerAction a → Permits acl a (some u)
  as_grantee :
      {u : User} (role : String)
      → u.id ≢ ""
      → u.id ≢ acl.owner_id
      → lookup u.id acl.grants ≡ some role
      → RoleAction role a
      → Permits acl a (some u)

is_defined_iff : (a : Action) → (is_defined a ≡ true) ↔ OwnerAction a
unfolding is_defined
is_defined_iff a = ground (
  arith,
  eq_iff a action_view,
  eq_iff a action_download,
  eq_iff a action_rename,
  eq_iff a action_delete,
  eq_iff a action_share,
)

role_allows_iff : (role : String) (a : Action) → (role_allows role a ≡ true) ↔ RoleAction role a
unfolding role_allows lookup
role_allows_iff role a = ground (
  arith,
  eq_iff role_editor role,
  eq_iff role_viewer role,
  eq_iff action_view a,
  eq_iff action_download a,
  eq_iff action_rename a,
)

can_owner :
    (u : User) (acl : NodeAcl) (a : Action)
    → u.id ≢ ""
    → u.id ≡ acl.owner_id
    → can (some u) acl a ≡ is_defined a
unfolding can
can_owner u acl a known same = ground (arith, eq_iff u.id "", eq_iff u.id acl.owner_id)

can_grantee :
    (u : User) (acl : NodeAcl) (a : Action) (role : String)
    → u.id ≢ ""
    → u.id ≢ acl.owner_id
    → lookup u.id acl.grants ≡ some role
    → can (some u) acl a ≡ role_allows role a
unfolding can
can_grantee u acl a role known other e = ground (arith, eq_iff u.id "", eq_iff u.id acl.owner_id)

pub can_stranger :
    (u : User) (acl : NodeAcl) (a : Action)
    → u.id ≢ acl.owner_id
    → lookup u.id acl.grants ≡ none
    → can (some u) acl a ≡ false
unfolding can
can_stranger u acl a other e = ground (arith, eq_iff u.id "", eq_iff u.id acl.owner_id)

can_anonymous : (u : User) (acl : NodeAcl) (a : Action) → u.id ≡ "" → can (some u) acl a ≡ false
unfolding can
can_anonymous u acl a e = ground (arith, eq_iff u.id "")

Permits-of_can :
    (u : User) (acl : NodeAcl) (a : Action) → can (some u) acl a ≡ true → Permits acl a (some u)
Permits-of_can u acl a h = elim (eq_cases u.id "") [
  | inl (_, anonymous) ↦ absurd (cc (h, can_anonymous u acl a anonymous))
  | inr (_, known) ↦ elim (eq_cases u.id acl.owner_id) [
    | inl (_, same) ↦
        as_owner known same ((is_defined_iff a).0 (sym (can_owner u acl a known same) ∙ h))
    | inr (_, other) ↦ elim (Option-cases (lookup u.id acl.grants)) [
      | inl none_found ↦ absurd (cc (h, can_stranger u acl a other none_found))
      | inr (role, e) ↦
          as_grantee role known other e
            ((role_allows_iff role a).0 (sym (can_grantee u acl a role known other e) ∙ h))
    ]
  ]
]

-- The decision function answers true exactly for the requests that the sharing model permits: no
-- user, an empty id, no grant, an unknown role and an unknown action are all denied, and the
-- account role plays no part.
pub can-iff-Permits :
    (user : Option User) (acl : NodeAcl) (a : Action) → (can user acl a ≡ true) ↔ Permits acl a user
can-iff-Permits none acl a = (λ h. absurd (false≢true (unfold can in h)), none_denied)
  where
    none_denied : Permits acl a none → can none acl a ≡ true
    none_denied h = elim h [ ]
can-iff-Permits (some u) acl a = (Permits-of_can u acl a, back)
  where
    back : Permits acl a (some u) → can (some u) acl a ≡ true
    back (as_owner known same h) = can_owner u acl a known same ∙ (is_defined_iff a).1 h
    back (as_grantee role known other e h) =
        can_grantee u acl a role known other e ∙ (role_allows_iff role a).1 h
