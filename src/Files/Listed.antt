-- ===== src/Files/Listed.antt =====
-- What a listing shows, against what the decision function lets the user view.
use securevault.Files.Shared.{IsShared}
use securevault.Effect.Runs.{query_ok}
use securevault.Effect.{World}
use securevault.Files.Stored.Answers.{acl_of}
use securevault.Authz.{NodeAcl, action_view, can}
use securevault.Files.Statements.{select_grants, join, is_grant}
use securevault.Files.Listing.{
  newer, sort_by, select_nodes, list_nodes, listed, grant_of, listed_role, first_grant,
}
use securevault.Files.Node.{scan_node, role_of, Node, grant_map}
use securevault.Auth.User.{User}
use securevault.Database.Schema.{NodeRow, Db, GrantRow}
use securevault.Authz.Laws.{can_stranger, can-iff-Permits, as_owner, as_grantee}
use mathlib.Core.Path.{subst}
use securevault.Base.{
  if◌then◌else◌, Bool-cases, Option-cases, ◌==◌, eq_iff, eq_refl, nat_eq, string_eq, bytes_eq,
  eq_cases, keep, count, All, lookup, insert, lookup-insert, ok, ◌≤◌, String, ◌≡◌, refl, sym, ap,
  ◌∙◌, ◌≢◌, ◌⊎◌, inl, inr, true, false, Option, none, some, List, [], ◌∷◌, arith,
}
use securevault.Platform.{Platform}

-- The role of a row, if there is one, and else what was there.
abbrev role_or : Option String → Option GrantRow → Option String
role_or o none = o
role_or o (some g) = some g.role

no_grant :
    (node user : String) (gs : List GrantRow)
    → count (is_grant node user) gs ≡ 0
    → first_grant node user gs ≡ none
no_grant node user [] h = refl
no_grant node user (g ∷ gs) h = ground (arith, no_grant node user gs)

-- The map that loadNode fills has the role of the one row.
lookup-grant_map :
    (node user : String) (gs : List GrantRow) (acc : List (String × String))
    → count (is_grant node user) gs ≤ 1
    → lookup user (grant_map acc (keep (λ g. g.node_id == node) gs))
      ≡ role_or (lookup user acc) (first_grant node user gs)
unfolding grant_map
lookup-grant_map node user [] acc h = refl
lookup-grant_map node user (g ∷ gs) acc h = ground (
  arith,
  eq_iff g.grantee_id user,
  lookup-insert user g.grantee_id g.role acc,
  no_grant node user gs,
  lookup-grant_map node user gs acc,
  lookup-grant_map node user gs (insert g.grantee_id g.role acc),
)

granted_role :
    (node user : String) (gs : List GrantRow) (g : GrantRow)
    → All (λ g. (g.role ≡ "editor") ⊎ (g.role ≡ "viewer")) gs
    → first_grant node user gs ≡ some g
    → (g.role ≡ "editor") ⊎ (g.role ≡ "viewer")
granted_role node user [] g k h = absurd (cc h)
granted_role node user (g' ∷ gs) g (r, k) h = elim (Bool-cases (is_grant node user g')) [
  | inl e ↦
      let same : g' ≡ g = cc (h, e) in
      subst (λ (x : GrantRow). (x.role ≡ "editor") ⊎ (x.role ≡ "viewer")) same r
  | inr e ↦ granted_role node user gs g k (cc (h, e))
]

-- Either role may view.
grantee_views :
    (u : User) (acl : NodeAcl) (role : String)
    → u.id ≢ ""
    → u.id ≢ acl.owner_id
    → lookup u.id acl.grants ≡ some role
    → (role ≡ "editor") ⊎ (role ≡ "viewer")
    → can (some u) acl action_view ≡ true
grantee_views u acl role known other e (inl editor) =
    (can-iff-Permits (some u) acl action_view).1
      (as_grantee role known other e (inl (editor, inl (inl refl))))
grantee_views u acl role known other e (inr viewer) =
    (can-iff-Permits (some u) acl action_view).1
      (as_grantee role known other e (inr (viewer, inl refl)))

owner_views :
    (u : User) (acl : NodeAcl)
    → u.id ≢ ""
    → u.id ≡ acl.owner_id
    → can (some u) acl action_view ≡ true
owner_views u acl known same =
    (can-iff-Permits (some u) acl action_view).1 (as_owner known same (inl (inl (inl refl))))

-- The nodes that the decision function lets the user view, with the role of the user on each.
abbrev pub viewable : Db → User → List NodeRow → List Node
viewable d u [] = []
viewable d u (n ∷ ns) = elim (join d n) [
  | none ↦ viewable d u ns
  | some j ↦
      if can (some u) (acl_of n.id n d) action_view
      then scan_node (role_of u (acl_of n.id n d)) j ∷ viewable d u ns
      else viewable d u ns
]

module _ (u : User) (d : Db) (known : u.id ≢ "") (s : IsShared d) where
  granted_map :
      (n : NodeRow)
      → lookup u.id (grant_map [] (select_grants n.id d)) ≡ role_or none (grant_of d n.id u.id)
  unfolding select_grants lookup
  granted_map n = lookup-grant_map n.id u.id d.grants [] (s.once n.id u.id)

  listed_role-eq :
      (n : NodeRow)
      → listed_role d u.id n ≡ (
          if can (some u) (acl_of n.id n d) action_view
          then some (role_of u (acl_of n.id n d))
          else none)
  unfolding role_of
  listed_role-eq n = elim (eq_cases n.owner_id u.id) [
    | inl (e, same) ↦
        rw (e, owner_views u (acl_of n.id n d) known (sym same), ← same, eq_refl n.owner_id) refl
    | inr (e, other) ↦
        let away : u.id ≢ n.owner_id = λ x. other (sym x) in
        let away_eq : (u.id == n.owner_id) ≡ false = ground (arith, eq_iff u.id n.owner_id, away) in
        elim (Option-cases (grant_of d n.id u.id)) [
          | inl absent ↦
              rw
                (
                  e,
                  absent,
                  can_stranger u (acl_of n.id n d) action_view away
                      (granted_map n ∙ ap (role_or none) absent),
                )
                refl
          | inr (g, granted) ↦
              let found = granted_map n ∙ ap (role_or none) granted in
              rw
                (
                  e,
                  granted,
                  grantee_views u (acl_of n.id n d) g.role known away found
                      (granted_role n.id u.id d.grants g s.roles granted),
                  away_eq,
                  found,
                )
                refl
        ]
  ]

  listed-eq : (ns : List NodeRow) → listed d u.id ns ≡ viewable d u ns
  unfolding listed
  listed-eq [] = refl
  listed-eq (n ∷ ns) = elim (Option-cases (join d n)) [
    | inl absent ↦ ground (arith, absent, listed-eq ns)
    | inr (j, joined) ↦ elim (Bool-cases (can (some u) (acl_of n.id n d) action_view)) [
      | inl e ↦
          let shown : listed_role d u.id n ≡ some (role_of u (acl_of n.id n d)) =
            listed_role-eq n ∙ rw (e) refl in
          ground (arith, joined, shown, e, listed-eq ns)
      | inr e ↦
          let hidden : listed_role d u.id n ≡ none = listed_role-eq n ∙ rw (e) refl in
          ground (arith, joined, hidden, e, listed-eq ns)
    ]
  ]

-- Where each user has at most one grant on a node, every grant has the editor or the viewer role,
-- and the user has an id: a listing that succeeds shows exactly the nodes, of those whose blob and
-- owner are in the tables, that the decision function lets the user view, each with the role that
-- an authorized request would show, in the order of the listing.
pub list_nodes-viewable :
    (p : Platform) (u : User) (w : World) {ns : List Node} {w' : World}
    → u.id ≢ ""
    → IsShared w.db
    → list_nodes p u w ≡ (ok ns, w')
    → ns ≡ sort_by newer (viewable w.db u w.db.nodes)
unfolding list_nodes select_nodes
list_nodes-viewable p u w known s h =
    (query_ok p _ w h).0 ∙ ap (sort_by newer) (listed-eq u w.db known s w.db.nodes)
