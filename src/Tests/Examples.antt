-- ===== src/Tests/Examples.antt =====
-- One application of each theorem with hypotheses, at concrete arguments.
use securevault.Files.Rollback.{upload-eq_of_err}
use securevault.Files.Authorized.{authorize_ok, Loaded}
use securevault.Storage.RoundTrip.{open-commit-stage}
use securevault.Storage.Disk.{content_at}
use securevault.Authz.Laws.{can-iff-Permits, Permits}
use securevault.Files.Validate.{sanitize_filename}
use securevault.Files.Requests.{
  perform_all-IsCounted, delete_one, get_file, share_with, put_file, perform_all,
}
use securevault.Tests.{
  refused_eq, refused_run, one_file, viewed_eq, view_run, state_of, empty-IsCounted, committed_eq,
  staged_eq, hello, alice, after_commit, after_stage, staged, repo, bob, store, start,
}
use securevault.Effect.{World}
use securevault.Files.Counts.{IsCounted}
use securevault.Files.Validate.Content.{validate_content-detected, agree, validate_content}
use securevault.Files.Validate.Names.{sanitize_filename-IsSafe, IsSafe}
use securevault.Storage.Integrity.{open_object-IsVerified, IsVerified}
use securevault.Authz.{NodeAcl, can}
use securevault.Storage.Store.{hex_digit, hex, object_path, open_object}
use securevault.Base.{
  nat_eq, string_eq, bytes_beq, bytes_eq, length, replicate, All, lookup, codes, validation, ok,
  ◌≤◌, ◌≡◌, refl, ◌↔◌, true, some, [], ◌∷◌, arith,
}
use securevault.Platform.Sample.{sample, sample-IsCryptoLawful}

perform_all-IsCounted_example :
    IsCounted
      (perform_all sample repo
        (put_file alice (codes "a.txt") "text/plain" hello
          ∷ share_with alice "id1" "bob" "viewer"
          ∷ get_file bob "id1"
          ∷ delete_one alice "id1"
          ∷ [])
        start).db
perform_all-IsCounted_example =
    perform_all-IsCounted sample repo
      (put_file alice (codes "a.txt") "text/plain" hello
        ∷ share_with alice "id1" "bob" "viewer"
        ∷ get_file bob "id1"
        ∷ delete_one alice "id1"
        ∷ [])
      start empty-IsCounted

open-commit-stage_example :
    (open_object sample store staged.hash staged.wrapped_dek after_commit).0 ≡ ok (codes "hello")
open-commit-stage_example =
    open-commit-stage sample store hello 100 start after_stage after_commit staged
      sample-IsCryptoLawful (omega arith) staged_eq committed_eq refl

abbrev tampered : World
tampered = record start { disk = (object_path store (replicate 32 1), codes "garbage") ∷ [] }

tampered_found : content_at (object_path store (replicate 32 1)) tampered ≡ some (codes "garbage")
unfolding lookup object_path hex hex_digit bytes_beq
tampered_found = refl

open_object-IsVerified_example :
    IsVerified sample (replicate 32 1) (open_object sample store (replicate 32 1) [] tampered).0
open_object-IsVerified_example =
    open_object-IsVerified sample store (replicate 32 1) [] (codes "garbage") tampered refl refl
      tampered_found

abbrev shared_acl : NodeAcl
shared_acl = record { owner_id = "u1"; grants = ("u2", "viewer") ∷ [] }

can-iff-Permits_example :
    (can (some bob) shared_acl "rename" ≡ true) ↔ Permits shared_acl "rename" (some bob)
can-iff-Permits_example = can-iff-Permits (some bob) shared_acl "rename"

sanitize_filename-IsSafe_example :
    All IsSafe (sanitize_filename sample (codes "../etc/pass\twd"))
    × (1 ≤ length (sanitize_filename sample (codes "../etc/pass\twd")))
    × (length (sanitize_filename sample (codes "../etc/pass\twd")) ≤ 255)
sanitize_filename-IsSafe_example = sanitize_filename-IsSafe sample (codes "../etc/pass\twd")

validate_content-detected_example :
    (sample.parse_media_type (sample.detect_content_type (137 ∷ [])) ≡ some "image/png")
    × ("image/png" ≡ sample.to_lower "image/png")
validate_content-detected_example =
    validate_content-detected sample "image/png" "image/png" "image/png" (137 ∷ []) refl refl png
  where
    png : validate_content sample "image/png" (137 ∷ []) ≡ ok "image/png"
    png = unfold validate_content agree in refl

authorize_ok_example :
    Loaded "id1" one_file.db (state_of view_run.0)
    × (can (some alice) (state_of view_run.0).acl "view" ≡ true)
    × (view_run.1.db ≡ one_file.db)
authorize_ok_example = authorize_ok sample alice "id1" "view" one_file viewed_eq

upload-eq_of_err_example : refused_run.1.db ≡ start.db
upload-eq_of_err_example =
    upload-eq_of_err sample repo alice (codes "a.txt") "" hello start validation refused_run.1
      refused_eq
