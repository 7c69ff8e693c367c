-- ===== src/Api/Middleware/Hardened.antt =====
-- Every answer carries the security headers and the identifier of its request.
use securevault.Api.Guards.{Ui}
use securevault.Api.Answer.{Response}
use securevault.Api.Middleware.{Ended, Headers, answered}
use securevault.Base.{
  ◌==◌, nat_eq, string_eq, Bytes, bytes_eq, All, lookup, codes, String, ◌≡◌, Bool, true, false, not,
  ◌&&◌, ◌||◌, Option, none, some, [], ◌∷◌,
}
use securevault.Platform.{Platform}

-- The headers have these values.
abbrev pub AllSet : Headers → Headers → Type 0
AllSet kvs hs = All (λ kv. lookup kv.0 hs ≡ some kv.1) kvs

-- Whether one of these headers is set by others.
abbrev pub sets : Headers → String → Bool
sets [] k = false
sets ((j, v) ∷ kvs) k = (j == k) || sets kvs k

abbrev clashes : Headers → Headers → Bool
clashes kvs [] = false
clashes kvs ((k, v) ∷ more) = sets kvs k || clashes kvs more

abbrev distinct : Headers → Bool
distinct [] = true
distinct ((k, v) ∷ kvs) = not (sets kvs k) && distinct kvs

-- What every answer has: the identifier of the request and the seven security headers.
abbrev pub chain_headers : String → Headers
chain_headers id =
    ("X-Request-Id", codes id)
    ∷ (
      "Content-Security-Policy",
      codes
          "default-src 'self'; script-src 'self'; style-src 'self'; img-src 'self' data:; connect-src 'self'; object-src 'none'; base-uri 'none'; frame-ancestors 'none'; form-action 'self'",
    )
    ∷ ("X-Content-Type-Options", codes "nosniff")
    ∷ ("Referrer-Policy", codes "no-referrer")
    ∷ ("Cross-Origin-Opener-Policy", codes "same-origin")
    ∷ ("Cross-Origin-Resource-Policy", codes "same-origin")
    ∷ ("Cross-Origin-Embedder-Policy", codes "require-corp")
    ∷ ("Permissions-Policy", codes "camera=(), microphone=(), geolocation=()")
    ∷ []

-- The file server sets none of them.
abbrev pub IsApart : Option Ui → Type 0
IsApart none = Unit
IsApart (some ui) = (path : Bytes) → clashes (ui.asset_headers path) (chain_headers "") ≡ false

-- An answer with the headers of the chain, for some identifier.
pub record IsHardened (e : Ended) : Type 0 where
  pub id : String
  pub headers : Headers
  pub response : Response
  pub answers : e ≡ answered headers response
  pub carried : AllSet (chain_headers id) headers
