-- ===== src/Files/Requests.antt =====
-- The operations of internal/files/files.go as requests, served one after another.
use securevault.Files.Preserved.{delete_file_preserves, upload-Keeps, IsPreserved}
use securevault.Database.Schema.{Db}
use securevault.Files.Counts.Others.{IsCounted-IsPreserved}
use securevault.Files.Quiet.{
  revoke-Keeps, share-Keeps, rename_file-Keeps, download-Keeps, stat-Keeps, list_nodes-Keeps,
}
use securevault.Files.Sharing.{revoke, revoke, share}
use securevault.Files.Access.{delete_file, rename_file, download}
use securevault.Files.Listing.{stat, list_nodes}
use securevault.Storage.Store.{Reader}
use securevault.Files.Upload.{upload}
use securevault.Effect.{World}
use securevault.Files.Node.{Repo}
use securevault.Auth.User.{User}
use securevault.Base.{nat_eq, string_eq, Bytes, bytes_eq, String, List, [], ◌∷◌}
use securevault.Platform.{Platform}
use securevault.Files.Counts.{IsCounted}

pub data Request : Type 0 where
  put_file : User → Bytes → String → Reader → Request
  list_files : User → Request
  stat_file : User → String → Request
  get_file : User → String → Request
  rename_to : User → String → Bytes → Request
  delete_one : User → String → Request
  share_with : User → String → String → String → Request
  revoke_from : User → String → String → Request

module _ (p : Platform) (r : Repo) where
  -- What a request leaves behind, whatever it answers.
  unfoldable pub perform : Request → World → World
  unfolding upload list_nodes stat download rename_file delete_file share revoke
  perform (put_file u name mime body) w = (upload p r u name mime body w).1
  perform (list_files u) w = (list_nodes p u w).1
  perform (stat_file u id) w = (stat p u id w).1
  perform (get_file u id) w = (download p r u id w).1
  perform (rename_to u id name) w = (rename_file p r u id name w).1
  perform (delete_one u id) w = (delete_file p r u id w).1
  perform (share_with u id name role) w = (share p u id name role w).1
  perform (revoke_from u id name) w = (revoke p u id name w).1

  unfoldable pub perform_all : List Request → World → World
  unfolding perform
  perform_all [] w = w
  perform_all (q ∷ qs) w = perform_all qs (perform q w)

  module _ (I : Db → Type 0) (kept : IsPreserved p I) where
    perform_preserves : (q : Request) (w : World) → I w.db → I (perform q w).db
    unfolding perform
    perform_preserves (put_file u name mime body) w c =
        (upload-Keeps p r I kept u name mime body).at w c
    perform_preserves (list_files u) w c = (list_nodes-Keeps p (λ d _. I d) kept.quiet r u).at w c
    perform_preserves (stat_file u id) w c = (stat-Keeps p (λ d _. I d) kept.quiet r u id).at w c
    perform_preserves (get_file u id) w c = (download-Keeps p (λ d _. I d) kept.quiet r u id).at w c
    perform_preserves (rename_to u id name) w c =
        (rename_file-Keeps p (λ d _. I d) kept.quiet r u id name).at w c
    perform_preserves (delete_one u id) w c = delete_file_preserves p r I kept.shrinks u id w c
    perform_preserves (share_with u id name role) w c =
        (share-Keeps p (λ d _. I d) kept.quiet r u id name role).at w c
    perform_preserves (revoke_from u id name) w c =
        (revoke-Keeps p (λ d _. I d) kept.quiet r u id name).at w c

    pub perform_all_preserves : (qs : List Request) (w : World) → I w.db → I (perform_all qs w).db
    unfolding perform_all
    perform_all_preserves [] w c = c
    perform_all_preserves (q ∷ qs) w c =
        perform_all_preserves qs (perform q w) (perform_preserves q w c)

  -- Where the reference counts are exact, every blob is referred to and the ids of the nodes are
  -- distinct, this holds after any sequence of requests on files, whatever external calls fail in
  -- them and however each request ends.
  pub perform_all-IsCounted :
      (qs : List Request) (w : World) → IsCounted w.db → IsCounted (perform_all qs w).db
  perform_all-IsCounted = perform_all_preserves IsCounted (IsCounted-IsPreserved p r)
