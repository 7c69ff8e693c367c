-- ===== src/Api/Laws.antt =====
-- What the guards of the endpoints let through.
use securevault.Audit.Laws.{record_event-Steady}
use securevault.Auth.Sessions.{validate_session, hash_token}
use securevault.Auth.Validity.{validate_session-IsPrincipal, IsPrincipal}
use securevault.Audit.{Event, record_event}
use securevault.Auth.User.{is_admin, User}
use securevault.Api.Answer.{write_error, Response}
use securevault.Api.Guards.{require_auth, require_admin, require_csrf, Server, Client}
use securevault.Api.Server.{handler, for_users, handle_user, UserEndpoint}
use securevault.Effect.{ignore, World, M, pure, ◌>>=◌, ◌>>◌}
use securevault.Api.Server.{
  post_logout, get_me, get_files, post_password, post_files, get_file_info, get_content,
  delete_one_file, patch_file, put_share, delete_share, get_users, get_invites, get_audit,
  post_invite, delete_invite,
}
use securevault.Base.{
  Bool-cases, Option-cases, nat_eq, string_eq, Bytes, bytes_eq, eq_cases, Result, ok, err, ℕ,
  String, ◌≡◌, refl, ◌∙◌, ◌≢◌, ◌⊎◌, inl, inr, Bool, true, false, some, [],
}
use securevault.Platform.{Platform}

-- The endpoints that change files, shares, passwords or invites.
abbrev pub is_write : UserEndpoint → Bool
is_write (post_password _) = true
is_write (post_files _) = true
is_write (delete_one_file _) = true
is_write (patch_file _ _) = true
is_write (put_share _ _) = true
is_write (delete_share _ _) = true
is_write (post_invite _) = true
is_write (delete_invite _) = true
is_write _ = false

-- The endpoints of administrators.
abbrev pub is_admin_endpoint : UserEndpoint → Bool
is_admin_endpoint get_users = true
is_admin_endpoint get_invites = true
is_admin_endpoint (get_audit _ _) = true
is_admin_endpoint (post_invite _) = true
is_admin_endpoint (delete_invite _) = true
is_admin_endpoint _ = false

-- The cookie of the double submit, repeated in the header.
abbrev pub IsDoubleSubmit : Client → Type 0
IsDoubleSubmit c = (c.csrf ≡ some c.csrf_header) × (c.csrf_header ≢ [])

-- A call that is answered by 403 or 404 and changes no table.
pub record Refused (m : M Response) (w : World) : Type 0 where
  pub response : Response
  pub answered : (m w).0 ≡ ok response
  pub status : (response.status ≡ 403) ⊎ (response.status ≡ 404)
  pub tables : (m w).1.db ≡ w.db

refuse :
    (status : ℕ) (message : String) (w : World) (n : (status ≡ 403) ⊎ (status ≡ 404))
    → Refused (pure (write_error status message)) w
unfolding pure
refuse status message w n = record {
  response = write_error status message;
  answered = refl;
  status = n;
  tables = refl;
}

module _ (p : Platform) (sv : Server) where
  csrf_cases :
      (c : Client) (next : M Response) (w : World)
      → IsDoubleSubmit c ⊎ Refused (require_csrf p sv c next) w
  unfolding require_csrf
  csrf_cases c next w = elim (Option-cases c.csrf) [
    | inl absent ↦ inr (rw (absent) (refuse 403 "missing CSRF token" w (inl refl)))
    | inr (value, given) ↦ elim (eq_cases value []) [
      | inl (empty, _) ↦ inr (rw (given, empty) (refuse 403 "missing CSRF token" w (inl refl)))
      | inr (full, nonempty) ↦ elim (eq_cases value c.csrf_header) [
        | inl (_, same) ↦ inl (rw (← same) given, λ none_given. nonempty (same ∙ none_given))
        | inr (wrong, _) ↦
            inr (rw (given, full, wrong) (refuse 403 "invalid CSRF token" w (inl refl)))
      ]
    ]
  ]

  denied-Refused :
      (e : Event) (w : World) → Refused (record_event p e >> pure (write_error 404 "not found")) w
  unfolding record_event pure ignore ◌>>=◌
  denied-Refused e w = record {
    response = write_error 404 "not found";
    answered = refl;
    status = inr refl;
    tables = (record_event-Steady p e).at w;
  }

  admin_cases :
      (c : Client) (u : User) (next : M Response) (w : World)
      → ((is_admin u ≡ true) × (require_admin p sv c u next ≡ next))
        ⊎ Refused (require_admin p sv c u next) w
  unfolding require_admin
  admin_cases c u next w = elim (Bool-cases (is_admin u)) [
    | inl admin ↦ inl (admin, rw (admin) refl)
    | inr other ↦ inr (rw (other) (denied-Refused _ w))
  ]

  admin_csrf_cases :
      (c : Client) (u : User) (next : M Response) (w : World)
      → IsDoubleSubmit c ⊎ Refused (require_admin p sv c u (require_csrf p sv c next)) w
  admin_csrf_cases c u next w = elim (admin_cases c u (require_csrf p sv c next) w) [
    | inl (admin, passed) ↦ rw (passed) (csrf_cases c next w)
    | inr refused ↦ inr refused
  ]

  admin_only :
      (c : Client) (u : User) (next : M Response) (w : World)
      → (is_admin u ≡ true) ⊎ Refused (require_admin p sv c u next) w
  admin_only c u next w = elim (admin_cases c u next w) [
    | inl (admin, _) ↦ inl admin
    | inr refused ↦ inr refused
  ]

  -- An endpoint that changes files, shares, passwords or invites is reached only by a request whose
  -- header repeats a nonempty CSRF cookie: otherwise the answer is 403 or 404, and no table but the
  -- audit log is changed.
  pub handle_user-IsDoubleSubmit :
      (c : Client) (e : UserEndpoint) (u : User) (w : World)
      → is_write e ≡ true
      → IsDoubleSubmit c ⊎ Refused (handle_user p sv c e u) w
  unfolding handle_user
  handle_user-IsDoubleSubmit c (post_password body) u w h = csrf_cases c _ w
  handle_user-IsDoubleSubmit c (post_files body) u w h = csrf_cases c _ w
  handle_user-IsDoubleSubmit c (delete_one_file value) u w h = csrf_cases c _ w
  handle_user-IsDoubleSubmit c (patch_file value body) u w h = csrf_cases c _ w
  handle_user-IsDoubleSubmit c (put_share value body) u w h = csrf_cases c _ w
  handle_user-IsDoubleSubmit c (delete_share value name) u w h = csrf_cases c _ w
  handle_user-IsDoubleSubmit c (post_invite body) u w h = admin_csrf_cases c u _ w
  handle_user-IsDoubleSubmit c (delete_invite value) u w h = admin_csrf_cases c u _ w
  handle_user-IsDoubleSubmit c post_logout u w h = absurd (cc h)
  handle_user-IsDoubleSubmit c get_me u w h = absurd (cc h)
  handle_user-IsDoubleSubmit c get_files u w h = absurd (cc h)
  handle_user-IsDoubleSubmit c (get_file_info value) u w h = absurd (cc h)
  handle_user-IsDoubleSubmit c (get_content value) u w h = absurd (cc h)
  handle_user-IsDoubleSubmit c get_users u w h = absurd (cc h)
  handle_user-IsDoubleSubmit c get_invites u w h = absurd (cc h)
  handle_user-IsDoubleSubmit c (get_audit limit before) u w h = absurd (cc h)

  -- An endpoint of administrators is reached only by a user of the administrator role: otherwise
  -- the answer is 403 or 404, and no table but the audit log is changed.
  pub handle_user-is_admin :
      (c : Client) (e : UserEndpoint) (u : User) (w : World)
      → is_admin_endpoint e ≡ true
      → (is_admin u ≡ true) ⊎ Refused (handle_user p sv c e u) w
  unfolding handle_user
  handle_user-is_admin c get_users u w h = admin_only c u _ w
  handle_user-is_admin c get_invites u w h = admin_only c u _ w
  handle_user-is_admin c (get_audit limit before) u w h = admin_only c u _ w
  handle_user-is_admin c (post_invite body) u w h = admin_only c u _ w
  handle_user-is_admin c (delete_invite value) u w h = admin_only c u _ w
  handle_user-is_admin c post_logout u w h = absurd (cc h)
  handle_user-is_admin c get_me u w h = absurd (cc h)
  handle_user-is_admin c get_files u w h = absurd (cc h)
  handle_user-is_admin c (post_password body) u w h = absurd (cc h)
  handle_user-is_admin c (post_files body) u w h = absurd (cc h)
  handle_user-is_admin c (get_file_info value) u w h = absurd (cc h)
  handle_user-is_admin c (get_content value) u w h = absurd (cc h)
  handle_user-is_admin c (delete_one_file value) u w h = absurd (cc h)
  handle_user-is_admin c (patch_file value body) u w h = absurd (cc h)
  handle_user-is_admin c (put_share value body) u w h = absurd (cc h)
  handle_user-is_admin c (delete_share value name) u w h = absurd (cc h)

  -- A request that entered: the endpoint answers for the account of the live session of its token,
  -- once the session has been validated.
  pub record Entered (c : Client) (e : UserEndpoint) (w : World) : Type 0 where
    pub token : Bytes
    pub user : User
    pub at : World
    pub cookie : c.session ≡ some token
    pub principal : IsPrincipal sv.auth (hash_token p token) (p.now w.step) w.db user
    pub validated : validate_session p sv.auth token w ≡ (ok user, at)
    pub answered : handler p sv c (for_users e) w ≡ handle_user p sv c e user at

  -- An endpoint for users answers either as its handler does, after the session has been validated,
  -- for the account that owns the live session of the token in the cookie, with the id, the name
  -- and the role of its row, or with status 401.
  pub handler-Entered :
      (c : Client) (e : UserEndpoint) (w : World)
      → Entered c e w
        ⊎ ((handler p sv c (for_users e) w).0 ≡ ok (write_error 401 "authentication required"))
  unfolding handler require_auth pure ◌>>=◌
  handler-Entered c e w = elim (Option-cases c.session) [
    | inl absent ↦ inr (rw (absent) refl)
    | inr (token, given) ↦ entered token given (validate_session p sv.auth token w) refl
  ]
    where
      entered :
          (token : Bytes)
          → c.session ≡ some token
          → (x : Result User × World) → validate_session p sv.auth token w ≡ x
          → Entered c e w
            ⊎ ((handler p sv c (for_users e) w).0 ≡ ok (write_error 401 "authentication required"))
      entered token given (ok u, w1) h = inl (record {
        token = token;
        user = u;
        at = w1;
        cookie = given;
        principal = validate_session-IsPrincipal p sv.auth token w h;
        validated = h;
        answered = rw (given, h) refl;
      })
      entered token given (err x, w1) h = inr (rw (given, h) refl)
