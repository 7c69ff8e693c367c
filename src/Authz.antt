-- ===== src/Authz.antt =====
-- internal/authz/authz.go: the one function that decides every request on a file.
pub mod Laws
use securevault.Base.{
  String, Bool, true, false, ◌&&◌, ◌||◌, Option, none, some, List, [], ◌∷◌, ◌==◌, string_eq, lookup,
  if◌then◌else◌,
}
use securevault.Auth.User.{User, is_admin}

-- `Action` is a string type: a caller may pass any text.
abbrev pub Action : Type 0
Action = String

abbrev pub action_view : Action
action_view = "view"

abbrev pub action_download : Action
action_download = "download"

abbrev pub action_rename : Action
action_rename = "rename"

abbrev pub action_delete : Action
action_delete = "delete"

abbrev pub action_share : Action
action_share = "share"

abbrev pub role_editor : String
role_editor = "editor"

abbrev pub role_viewer : String
role_viewer = "viewer"

pub record NodeAcl : Type 0 where
  pub owner_id : String
  pub grants : List (String × String)

abbrev role_permissions : List (String × List (Action × Bool))
role_permissions =
    (role_editor, (action_view, true) ∷ (action_download, true) ∷ (action_rename, true) ∷ [])
    ∷ (role_viewer, (action_view, true) ∷ (action_download, true) ∷ [])
    ∷ []

-- `rolePermissions[role][action]`: a missing role is an empty map, a missing action is false.
role_allows : String → Action → Bool
unfolding lookup
role_allows role action = elim (lookup role role_permissions) [
  | none ↦ false
  | some allowed ↦ elim (lookup action allowed) [ none ↦ false | some b ↦ b ]
]

-- The `switch` over the five defined actions.
is_defined : Action → Bool
is_defined action =
    action == action_view
    || action == action_download
    || action == action_rename
    || action == action_delete
    || action == action_share

-- `none` is the nil user.
unfoldable pub can : Option User → NodeAcl → Action → Bool
unfolding role_allows is_defined lookup
can none acl action = false
can (some u) acl action =
    if u.id == ""
    then false
    else if u.id == acl.owner_id
    then is_defined action
    else elim (lookup u.id acl.grants) [ some role ↦ role_allows role action | none ↦ false ]

pub can_administrate : Option User → Bool
unfolding is_admin
can_administrate none = false
can_administrate (some u) = is_admin u
