-- ===== src/Files/Listing.antt =====
-- internal/files/files.go: `List` and `Stat`.
use securevault.Authz.{action_share, can, action_view}
use securevault.Effect.{pure, ◌>>=◌}
use securevault.Effect.{query, M}
use securevault.Auth.User.{User}
use securevault.Files.Statements.{user_of, is_grant, join, select_grants}
use securevault.Platform.{Platform}
use securevault.Database.Schema.{NodeRow, GrantRow, Db}
use securevault.Files.Node.{Grant, authorize, scan_node, Node}
use securevault.Base.{
  leb, if◌then◌else◌, ◌==◌, nat_eq, string_eq, bytes_eq, String, Bool, Option, none, some, List, [],
  ◌∷◌,
}

-- ORDER BY: a sort that keeps the order of equal rows.
unfoldable pub insert_by {ℓ} : {A : Type ℓ} → (A → A → Bool) → A → List A → List A
insert_by before a [] = a ∷ []
insert_by before a (b ∷ bs) =
    let rest = insert_by before a bs in if before a b then a ∷ b ∷ bs else b ∷ rest

unfoldable pub sort_by {ℓ} : {A : Type ℓ} → (A → A → Bool) → List A → List A
unfolding insert_by
sort_by before [] = []
sort_by before (a ∷ xs) = insert_by before a (sort_by before xs)

-- LEFT JOIN grants g ON g.node_id = n.id AND g.grantee_id = $1: the primary key admits one row.
abbrev pub first_grant : String → String → List GrantRow → Option GrantRow
first_grant node user [] = none
first_grant node user (g ∷ gs) = if is_grant node user g then some g else first_grant node user gs

abbrev pub grant_of : Db → String → String → Option GrantRow
grant_of d node user = first_grant node user d.grants

-- CASE WHEN n.owner_id = $1 THEN 'owner' ELSE g.role END, where the WHERE clause lets the row pass.
abbrev pub listed_role : Db → String → NodeRow → Option String
listed_role d user n =
    if n.owner_id == user
    then some "owner"
    else elim (grant_of d n.id user) [ none ↦ none | some g ↦ some g.role ]

abbrev pub listed_row : Db → String → NodeRow → Option Node
listed_row d user n = elim (join d n) [
  | none ↦ none
  | some j ↦ elim (listed_role d user n) [ none ↦ none | some role ↦ some (scan_node role j) ]
]

unfoldable pub listed : Db → String → List NodeRow → List Node
listed d user [] = []
listed d user (n ∷ ns) = elim (listed_row d user n) [
  | none ↦ listed d user ns
  | some node ↦ node ∷ listed d user ns
]

abbrev pub newer : Node → Node → Bool
newer a b = leb b.created_at a.created_at

unfoldable pub select_nodes : String → Db → List Node
unfolding listed sort_by scan_node
select_nodes user d = sort_by newer (listed d user d.nodes)

abbrev pub named_grants : Db → List GrantRow → List Grant
named_grants d [] = []
named_grants d (g ∷ gs) = elim (user_of d g.grantee_id) [
  | none ↦ named_grants d gs
  | some us ↦ record { username = us.username; role = g.role } ∷ named_grants d gs
]

module _ (p : Platform) where
  -- SELECT us.username, g.role FROM grants g JOIN users us … ORDER BY us.username
  unfoldable pub select_named_grants : String → Db → List Grant
  unfolding sort_by select_grants
  select_named_grants id d =
      sort_by (λ a b. p.collates a.username b.username) (named_grants d (select_grants id d))

  unfoldable pub list_nodes : User → M (List Node)
  unfolding select_nodes
  list_nodes u = query p (select_nodes u.id)

  unfoldable pub stat : User → String → M (Node × List Grant)
  unfolding authorize select_named_grants
  stat u id = do
    st ← authorize p u id action_view
    grants ← if can (some u) st.acl action_share then query p (select_named_grants id) else pure []
    pure (st.node, grants)
