-- ===== src/Auth/User.antt =====
-- internal/auth/service.go: the authenticated principal.
use securevault.Base.{String, Bool, ◌==◌, string_eq}

pub record User : Type 0 where
  pub id : String
  pub username : String
  pub role : String

-- The account roles `roleUser` and `roleAdmin`.
abbrev pub role_user : String
role_user = "user"

abbrev pub role_admin : String
role_admin = "admin"

unfoldable pub is_admin : User → Bool
is_admin u = u.role == role_admin
