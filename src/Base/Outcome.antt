-- ===== src/Base/Outcome.antt =====
-- What a call returns: a value, or an error. The constructors of `Error` are the program's sentinel
-- errors; `pg` is an error of the database driver, and `internal` is any other (a wrapped or
-- anonymous error, which no caller tells from another by `errors.Is`).

-- How an external call fails: with PostgreSQL's unique_violation (23505), or otherwise.
pub data Fault : Type 0 where
  unique_violation broken : Fault

pub data Error : Type 0 where
  -- internal/storage
  no_object corrupt too_large : Error
  -- internal/files
  not_found integrity validation : Error
  -- internal/auth
  invalid_credentials throttled username_taken session_invalid password_policy username_policy :
      Error
  registration_closed invite_required invite_invalid user_limit_reached invite_not_found : Error
  invite_policy admin_required : Error
  -- *http.MaxBytesError, from a request body over its cap
  max_bytes : Error
  -- io.ErrUnexpectedEOF, from a request body that ends early
  unexpected_eof : Error
  pg : Fault → Error
  internal : Error

pub data Result {ℓ} (A : Type ℓ) : Type ℓ where
  ok : A → Result A
  err : Error → Result A
