-- ===== src/Api/Middleware.antt =====
-- internal/api/middleware.go (withRequestID, withRecovery, withSecurityHeaders), and in
-- internal/api/server.go the rest of `Handler`: the routes that touch no state, spaHandler, and the
-- chain around all of them. The log lines of withLogging are left out. A handler is given the headers
-- that are set so far.
pub mod Hardened
use securevault.Api.Server.{handler}
use securevault.Storage.Crypto.{random_bytes}
use securevault.Api.Server.{Endpoint}
use securevault.Api.Guards.{Client, Ui, Server}
use securevault.Effect.{attempt, pure, M, ◌>>=◌, ◌>>◌}
use securevault.Api.Answer.{
  status_body, write_json, Body, Response, write_error, content_body, index_body, asset_body,
}
use Prim.Native.String.{String, ◌++◌ as concat, slice}
use securevault.Base.{
  if◌then◌else◌, ◌==◌, nat_eq, string_eq, Bytes, bytes_eq, length, replicate, any, Fault, Result,
  insert, codes, internal, ok, err, pos, ℕ, zero, suc, ◌-◌, ◌/◌, ◌%◌, code, ap, not, ◌&&◌, Option,
  none, some, List, [], ◌∷◌,
}
use securevault.Platform.{Platform}

abbrev pub Headers : Type 0
Headers = List (String × Bytes)

-- How a handler ends: with an answer, or in a panic that left some headers set.
pub data Ended : Type 0 where
  answered : Headers → Response → Ended
  panicked : Headers → Ended

abbrev pub Next : Type 0
Next = Headers → M Ended

-- w.Header().Set of each, in order.
abbrev pub set_all : Headers → Headers → Headers
set_all [] hs = hs
set_all ((k, v) ∷ kvs) hs = set_all kvs (insert k v hs)

abbrev pub security_headers : Headers
security_headers =
    (
      "Content-Security-Policy",
      codes
          "default-src 'self'; script-src 'self'; style-src 'self'; img-src 'self' data:; connect-src 'self'; object-src 'none'; base-uri 'none'; frame-ancestors 'none'; form-action 'self'",
    )
    ∷ ("X-Content-Type-Options", codes "nosniff")
    ∷ ("Referrer-Policy", codes "no-referrer")
    ∷ ("Cross-Origin-Opener-Policy", codes "same-origin")
    ∷ ("Cross-Origin-Resource-Policy", codes "same-origin")
    ∷ ("Cross-Origin-Embedder-Policy", codes "require-corp")
    ∷ ("Permissions-Policy", codes "camera=(), microphone=(), geolocation=()")
    ∷ []

unfoldable pub with_security_headers : Next → Next
with_security_headers next hs = next (set_all security_headers hs)

abbrev pub json_headers : Headers
json_headers = ("Content-Type", codes "application/json") ∷ []

abbrev pub recovered : Ended → Ended
recovered (answered hs r) = answered hs r
recovered (panicked hs) = answered (set_all json_headers hs) (write_error 500 "internal error")

-- The deferred recover().
unfoldable pub with_recovery : Next → Next
with_recovery next hs = do e ← next hs; pure (recovered e)

-- hex.EncodeToString as a text.
abbrev pub hex_char : ℕ → String
hex_char d = slice "0123456789abcdef" d (suc d)

abbrev pub hex_text : Bytes → String
hex_text [] = ""
hex_text (b ∷ s) = concat (concat (hex_char (b / 16)) (hex_char (b % 16))) (hex_text s)

-- The buffer that rand.Read was given: zeros where it failed.
abbrev pub buffer : ℕ → Result Bytes → Bytes
buffer n (ok b) = b
buffer n (err e) = replicate n 0

module _ (p : Platform) where
  unfoldable pub with_request_id : (String → Next) → Next
  unfolding random_bytes
  with_request_id next hs = do
    r ← attempt (random_bytes p 8)
    let id = hex_text (buffer 8 r)
    next id (insert "X-Request-Id" (codes id) hs)

  -- The headers that a handler sets with its answer; those of an asset are the file server's.
  abbrev pub own_headers : Option Ui → Body → Headers
  own_headers ui (content_body node plain) =
      ("Content-Type", codes node.mime_type)
      ∷ ("Content-Disposition", p.format_attachment node.name)
      ∷ ("Content-Length", p.format_int (length plain))
      ∷ ("Cache-Control", codes "no-store")
      ∷ []
  own_headers ui (index_body index) =
      ("Content-Type", codes "text/html; charset=utf-8") ∷ ("Cache-Control", codes "no-store") ∷ []
  own_headers (some ui) (asset_body path) = ui.asset_headers path
  own_headers none (asset_body path) = []
  own_headers ui _ = json_headers

  abbrev pub finish : Option Ui → Headers → Response → Ended
  finish ui hs r = answered (set_all (own_headers ui r.body) hs) r

-- A request by its route. A page is the path behind the first `/`.
pub data Route : Type 0 where
  api : Endpoint → Route
  health unknown_api : Route
  page : Bytes → Route

abbrev serve_index : Option Bytes → Response
serve_index none = write_error 500 "internal error"
serve_index (some index) = write_json 200 (index_body index)

-- An asset that exists, and index.html for any other path.
unfoldable pub spa_handler : Ui → Bytes → Response
spa_handler ui path =
    if not (path == []) && ui.opens path
    then write_json 200 (asset_body path)
    else serve_index ui.index

abbrev serve_page : Option Ui → Bytes → Response
serve_page none path =
    write_error 404 "no embedded UI in this build; use the Vite dev server (make web-dev)"
serve_page (some ui) path = spa_handler ui path

module _ (p : Platform) (sv : Server) where
  abbrev pub route : Client → Route → M Response
  route c (api e) = handler p sv c e
  route c health = pure (write_json 200 (status_body "ok"))
  route c unknown_api = pure (write_error 404 "not found")
  route c (page path) = pure (serve_page sv.ui path)

  unfoldable pub mux : Client → Route → Next
  unfolding handler spa_handler
  mux c r hs = do answer ← route c r; pure (finish p sv.ui hs answer)

  -- The chain of `Handler`, around the request with its identifier.
  unfoldable pub serve : Client → Route → M Ended
  unfolding with_request_id with_recovery with_security_headers mux
  serve c r =
      with_request_id p
        (λ id. with_recovery (with_security_headers (mux (record c { request_id = id }) r))) []
