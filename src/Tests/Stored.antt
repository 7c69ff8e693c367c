-- ===== src/Tests/Stored.antt =====
-- An upload, run, and the download of it.
use securevault.Files.Granted.{held, IsOwners, IsRegranted}
use securevault.Files.Granted.Calls.{IsShareOutcome, share-outcome, revoke_ok}
use securevault.Files.Counts.{refs_of}
use securevault.Files.Stored.Interleaved.{delete_object-AllHeld_after}
use securevault.Authz.{action_download, can}
use securevault.Files.Sharing.{revoke, share}
use securevault.Database.Schema.{BlobRow, NodeRow}
use securevault.Files.Stored.Always.{perform_all-AllHeld}
use securevault.Files.Stored.Answers.{acl_of, download-perform_all, Answered, download-upload}
use securevault.Files.Access.{delete_body, delete_object, delete_rows, download}
use securevault.Files.Requests.{perform, delete_one, get_file, perform_all}
use securevault.Audit.{record_event}
use securevault.Files.Statements.{
  delete_grant, delete_blob, drop_reference, delete_node, upsert_grant, select_user_id,
  select_grants, select_node, NodeJoin, insert_node, insert_blob, select_refs,
}
use securevault.Storage.Disk.{content_at, rename, remove_file, write, create_temp}
use securevault.Storage.Crypto.{new_gcm, random_bytes, encrypt, wrap_dek, new_dek}
use securevault.Files.Validate.Content.{agree, validate_content}
use securevault.Text.{trim_right, trim_left, encode, runes_after}
use securevault.Files.Validate.{last_element, sanitize_filename}
use securevault.Storage.Store.{
  remove, Reader, hex_digit, hex, object_path, abort, commit, write_parts, write_temp, read_limit,
  stage, read_all,
}
use securevault.Tests.{user_row, bob, hello, start, alice, no_node, store, repo}
use securevault.Files.Node.{grant_map, scan_node, node_state, load_node, authorize, Node}
use securevault.Files.Uploaded.{upload_ok, Uploaded}
use securevault.Files.Held.{AllHeld}
use securevault.Files.Upload.{
  reference_blob, insert_body, insert_upload, insert_twice, multi_reader, upload,
}
use securevault.Effect.{
  raise_if, modify, gets, ignore, on_error, write_back, run, query, call, in_transaction,
  transaction, os_call, pure, finally, rescue, lift, World, ◌>>=◌,
}
use securevault.Effect.{write_back}
use securevault.Files.Requests.{put_file}
use securevault.Files.Requests.{share_with}
use securevault.Platform.Sample.{hello_unique, sample-IsDigestLawful, sample-IsCryptoLawful, sample}
use securevault.Base.{
  nat_eq, string_eq, Bytes, bytes_beq, bytes_eq, Result, lookup, without, insert, codes, ok, err, ℕ,
  ◌≡◌, refl, ap, ◌≢◌, true, false, Option, none, some, [], ◌∷◌, arith,
}

abbrev upload_run : Result Node × World
upload_run = upload sample repo alice (codes "a.txt") "text/plain" hello start

abbrev got : Result Node → Node
got (ok n) = n
got (err e) = no_node

uploaded_eq :
    upload sample repo alice (codes "a.txt") "text/plain" hello start
    ≡ (ok (got upload_run.0), upload_run.1)
unfolding upload read_all sanitize_filename runes_after encode last_element trim_left trim_right
    validate_content agree lift rescue finally stage ◌>>=◌ pure read_limit new_dek wrap_dek encrypt
    write_temp write_parts random_bytes new_gcm create_temp write remove_file os_call insert without
    lookup bytes_beq multi_reader insert_twice insert_upload insert_body reference_blob select_refs
    insert_blob insert_node transaction in_transaction call query run write_back commit abort
    object_path hex hex_digit rename on_error ignore record_event gets modify raise_if
uploaded_eq = refl

nothing-AllHeld : AllHeld sample store start.db start.disk
nothing-AllHeld h b found = absurd (cc found)

upload_ok_example :
    Uploaded sample repo alice
      (codes "a.txt")
      "text/plain"
      hello
      start.db
      (got upload_run.0)
      upload_run.1.db
upload_ok_example =
    upload_ok sample repo alice (codes "a.txt") "text/plain" hello start sample-IsCryptoLawful
      (omega arith) uploaded_eq

abbrev served : World
served =
    perform_all sample repo
      (put_file alice (codes "a.txt") "text/plain" hello
        ∷ get_file alice "id1"
        ∷ delete_one alice "id1"
        ∷ [])
      start

perform_all-AllHeld_example : AllHeld sample store served.db served.disk
perform_all-AllHeld_example =
    perform_all-AllHeld sample repo sample-IsCryptoLawful sample-IsDigestLawful (omega arith)
      (put_file alice (codes "a.txt") "text/plain" hello
        ∷ get_file alice "id1"
        ∷ delete_one alice "id1"
        ∷ [])
      start nothing-AllHeld

download-upload_example :
    (shown : Node) × ((download sample repo alice (got upload_run.0).id upload_run.1).0
      ≡ ok (shown, codes "hello"))
download-upload_example =
    download-upload sample repo alice (codes "a.txt") "text/plain" hello start (λ t. refl)
      sample-IsCryptoLawful sample-IsDigestLawful (omega arith) (λ e. absurd (cc e)) hello_unique
      nothing-AllHeld uploaded_eq

abbrev shared : World
shared =
    perform_all sample repo
      (put_file alice (codes "a.txt") "text/plain" hello
        ∷ share_with alice "id1" "bob" "viewer"
        ∷ [])
      start

abbrev no_row : NodeRow
no_row = record {
  id = "";
  owner_id = "";
  blob_hash = [];
  display_name = [];
  mime_type = "";
  created_at = 0;
  updated_at = 0;
}

abbrev no_blob : BlobRow
no_blob = record { hash = []; size_bytes = 0; wrapped_dek = []; ref_count = 0 }

abbrev join_of : Option NodeJoin → NodeJoin
join_of (some j) = j
join_of none = record { node = no_row; blob = no_blob; owner = user_row alice }

abbrev shared_join : NodeJoin
shared_join = join_of (select_node "id1" shared.db)

shared_found : select_node "id1" shared.db ≡ some shared_join
unfolding perform_all perform share authorize load_node node_state scan_node grant_map select_node
    select_grants select_user_id upsert_grant can upload read_all sanitize_filename runes_after
    encode last_element trim_left trim_right validate_content agree lift rescue finally stage ◌>>=◌
    pure read_limit new_dek wrap_dek encrypt write_temp write_parts random_bytes new_gcm create_temp
    write remove_file os_call insert without lookup bytes_beq multi_reader insert_twice
    insert_upload insert_body reference_blob select_refs insert_blob insert_node transaction
    in_transaction call query run write_back commit abort object_path hex hex_digit rename on_error
    ignore record_event gets modify raise_if
shared_found = refl

shared_may : can (some bob) (acl_of "id1" shared_join.node shared.db) action_download ≡ true
unfolding perform_all perform share authorize load_node node_state scan_node grant_map select_node
    select_grants select_user_id upsert_grant can upload read_all sanitize_filename runes_after
    encode last_element trim_left trim_right validate_content agree lift rescue finally stage ◌>>=◌
    pure read_limit new_dek wrap_dek encrypt write_temp write_parts random_bytes new_gcm create_temp
    write remove_file os_call insert without lookup bytes_beq multi_reader insert_twice
    insert_upload insert_body reference_blob select_refs insert_blob insert_node transaction
    in_transaction call query run write_back commit abort object_path hex hex_digit rename on_error
    ignore record_event gets modify raise_if
shared_may = refl

download-perform_all_example : Answered sample repo bob "id1" shared shared_join
download-perform_all_example =
    download-perform_all sample repo
      (put_file alice (codes "a.txt") "text/plain" hello
        ∷ share_with alice "id1" "bob" "viewer"
        ∷ [])
      bob "id1" start shared_join (λ t. refl) sample-IsCryptoLawful sample-IsDigestLawful
      (omega arith) nothing-AllHeld shared_found shared_may

abbrev hello_hash : Bytes
hello_hash = sample.sha256 (codes "hello")

abbrev rows_gone : Result ℕ × World
rows_gone = delete_rows sample repo "id1" hello_hash upload_run.1

rows_gone_eq : delete_rows sample repo "id1" hello_hash upload_run.1 ≡ (ok 0, rows_gone.1)
unfolding delete_rows delete_body delete_node drop_reference delete_blob upload read_all
    sanitize_filename runes_after encode last_element trim_left trim_right validate_content agree
    lift rescue finally stage ◌>>=◌ pure read_limit new_dek wrap_dek encrypt write_temp write_parts
    random_bytes new_gcm create_temp write remove_file os_call insert without lookup bytes_beq
    multi_reader insert_twice insert_upload insert_body reference_blob select_refs insert_blob
    insert_node transaction in_transaction call query run write_back commit abort object_path hex
    hex_digit rename on_error ignore record_event gets modify raise_if
rows_gone_eq = refl

uploaded_AllHeld : AllHeld sample store upload_run.1.db upload_run.1.disk
unfolding upload perform_all perform
uploaded_AllHeld =
    perform_all-AllHeld sample repo sample-IsCryptoLawful sample-IsDigestLawful (omega arith)
      (put_file alice (codes "a.txt") "text/plain" hello ∷ []) start nothing-AllHeld

abbrev other_text : Reader
other_text = record { content = codes "other"; failure = none }

other_digest : sample.sha256 other_text.content ≢ hello_hash
unfolding bytes_beq
other_digest e =
    let same : false ≡ true = ap (bytes_beq (codes "hello")) (hello_unique other_text.content e) in
    absurd (cc same)

abbrev gone_after : World
gone_after =
    (delete_object sample repo alice "id1" hello_hash 0 (
      perform_all sample repo
        (put_file bob (codes "b.txt") "text/plain" other_text ∷ get_file alice "id1" ∷ [])
        rows_gone.1)).1

delete_object-AllHeld_after_example : AllHeld sample store gone_after.db gone_after.disk
delete_object-AllHeld_after_example =
    delete_object-AllHeld_after sample repo sample-IsCryptoLawful sample-IsDigestLawful
      (omega arith) alice "id1" hello_hash
      (put_file bob (codes "b.txt") "text/plain" other_text ∷ get_file alice "id1" ∷ [])
      upload_run.1 uploaded_AllHeld rows_gone_eq (other_digest, (tt, tt))

abbrev lost : World
lost =
    (delete_object sample repo alice "id1" hello_hash 0
      (perform sample repo (put_file bob (codes "b.txt") "text/plain" hello) rows_gone.1)).1

-- The same content uploaded between the two parts: a row of the blobs without an object file.
lost_object :
    (refs_of lost.db hello_hash ≡ 1) × (content_at (object_path store hello_hash) lost ≡ none)
unfolding delete_object delete_rows delete_body delete_node drop_reference delete_blob remove
    perform upload read_all sanitize_filename runes_after encode last_element trim_left trim_right
    validate_content agree lift rescue finally stage ◌>>=◌ pure read_limit new_dek wrap_dek encrypt
    write_temp write_parts random_bytes new_gcm create_temp write remove_file os_call insert without
    lookup bytes_beq multi_reader insert_twice insert_upload insert_body reference_blob select_refs
    insert_blob insert_node transaction in_transaction call query run write_back commit abort
    object_path hex hex_digit rename on_error ignore record_event gets modify raise_if
lost_object = (refl, refl)

share-outcome_example :
    IsShareOutcome alice "id1" "bob" "viewer" upload_run.1.db
      (share sample alice "id1" "bob" "viewer" upload_run.1)
share-outcome_example = share-outcome sample alice "id1" "bob" "viewer" upload_run.1

abbrev unshared : World
unshared = (revoke sample alice "id1" "bob" shared).1

unshared_eq : revoke sample alice "id1" "bob" shared ≡ (ok tt, unshared)
unfolding revoke delete_grant perform_all perform share authorize load_node node_state scan_node
    grant_map select_node select_grants select_user_id upsert_grant can upload read_all
    sanitize_filename runes_after encode last_element trim_left trim_right validate_content agree
    lift rescue finally stage ◌>>=◌ pure read_limit new_dek wrap_dek encrypt write_temp write_parts
    random_bytes new_gcm create_temp write remove_file os_call insert without lookup bytes_beq
    multi_reader insert_twice insert_upload insert_body reference_blob select_refs insert_blob
    insert_node transaction in_transaction call query run write_back commit abort object_path hex
    hex_digit rename on_error ignore record_event gets modify raise_if
unshared_eq = refl

revoke_ok_example :
    (o : IsOwners alice "id1" "bob" shared.db) × (held shared.db.grants "id1" o.grantee.id ≢ none)
    × IsRegranted "id1" o.grantee.id none shared.db unshared.db
revoke_ok_example = revoke_ok sample alice "id1" "bob" shared unshared_eq
