-- ===== src/Api/FileHandlers.antt =====
-- internal/api/handlers_files.go: the handlers of files and shares.
use securevault.Text.{encode}
use securevault.Files.Sharing.{revoke, share}
use securevault.Files.Access.{delete_file, rename_file, download}
use securevault.Auth.User.{User}
use securevault.Api.Answer.{
  node_body, status_body, nodes_body, content_body, stat_body, write_error, with_body, write_json,
  Response, answer, with_uuid, write_service_error,
}
use securevault.Files.Upload.{upload}
use securevault.Files.Listing.{stat, list_nodes}
use securevault.Storage.Store.{Reader}
use securevault.Files.Node.{Node, Repo}
use securevault.Effect.{attempt, pure, M, ◌>>=◌}
use securevault.Base.{
  ltb, if◌then◌else◌, ◌==◌, nat_eq, string_eq, Bytes, bytes_eq, length, Error, Result, codes,
  too_large, max_bytes, ok, err, String, Bool, true, false, Option, none, some, List, [], ◌∷◌,
}
use securevault.Platform.{Platform}

pub record Part : Type 0 where
  pub form_name : String
  pub file_name : Bytes
  pub content_type : String
  pub body : Reader

-- A multipart body: its parts, and the error of NextPart after them.
pub record Multipart : Type 0 where
  pub parts : List Part
  pub last : Error

-- errors.As with an *http.MaxBytesError
abbrev pub is_max_bytes : Error → Bool
is_max_bytes max_bytes = true
is_max_bytes _ = false

module _ (p : Platform) (r : Repo) where
  unfoldable pub handle_list : User → M Response
  unfolding list_nodes answer
  handle_list u = answer (list_nodes p u) λ nodes. pure (write_json 200 (nodes_body nodes))

  unfoldable pub uploaded_answer : Result Node → Response
  unfolding write_service_error
  uploaded_answer (ok n) = write_json 201 (node_body n)
  uploaded_answer (err e) = write_service_error (if is_max_bytes e then too_large else e)

  -- The loop over the parts.
  unfoldable pub take_parts : User → Error → List Part → M Response
  unfolding upload uploaded_answer
  take_parts u last [] = pure (
      if is_max_bytes last
      then write_error 413 "file exceeds the upload size limit"
      else write_error 400 "no file field in upload")
  take_parts u last (part ∷ parts) =
      let rest = take_parts u last parts in
      if part.form_name == "file"
      then (do
        done ← attempt (upload p r u part.file_name part.content_type part.body)
        pure (uploaded_answer done))
      else rest

  unfoldable pub handle_upload : User → Option Multipart → M Response
  unfolding take_parts
  handle_upload u none = pure (write_error 400 "expected multipart/form-data")
  handle_upload u (some m) = take_parts u m.last m.parts

  unfoldable pub handle_stat : User → String → M Response
  unfolding with_uuid stat answer
  handle_stat u value =
      with_uuid p value
        λ id. answer (stat p u id) λ (node, grants). pure (write_json 200 (stat_body node grants))

  unfoldable pub handle_download : User → String → M Response
  unfolding with_uuid download answer
  handle_download u value = with_uuid p value λ id.
      answer (download p r u id) λ (node, plain). pure (write_json 200 (content_body node plain))

  unfoldable pub handle_rename : User → String → Option Bytes → M Response
  unfolding with_uuid rename_file answer
  handle_rename u value body = with_uuid p value λ id. with_body body λ name.
      if name == []
      then pure (write_error 400 "name is required")
      else answer (rename_file p r u id name) λ node. pure (write_json 200 (node_body node))

  unfoldable pub handle_delete : User → String → M Response
  unfolding with_uuid delete_file answer
  handle_delete u value =
      with_uuid p value
        λ id. answer (delete_file p r u id) λ _. pure (write_json 200 (status_body "deleted"))

  unfoldable pub handle_share : User → String → Option (String × String) → M Response
  unfolding with_uuid share answer
  handle_share u value body = with_uuid p value λ id. with_body body λ (username, role).
      answer (share p u id username role) λ _. pure (write_json 200 (status_body "shared"))

  unfoldable pub handle_revoke : User → String → String → M Response
  unfolding encode with_uuid revoke answer
  handle_revoke u value username = with_uuid p value λ id.
      if ltb 64 (length (encode (codes username)))
      then pure (write_error 400 "malformed username")
      else answer (revoke p u id username) λ _. pure (write_json 200 (status_body "revoked"))
