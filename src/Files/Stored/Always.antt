-- ===== src/Files/Stored/Always.antt =====
-- The store keeps what the tables promise, over any sequence of requests on files.
use securevault.Files.Stored.Deletes.{delete_file-AllHeld}
use securevault.Files.Quiet.{
  revoke-Keeps, share-Keeps, rename_file-Keeps, download-Keeps, stat-Keeps, list_nodes-Keeps,
}
use securevault.Files.Stored.Served.{AllHeld-IsQuiet, upload-AllHeld}
use securevault.Files.Held.{AllHeld}
use securevault.Effect.{World}
use securevault.Storage.Store.{max_int64}
use securevault.Platform.Laws.{IsDigestLawful, IsCryptoLawful}
use securevault.Files.Node.{Repo}
use securevault.Files.Requests.{
  Request, perform_all, perform, put_file, list_files, stat_file, get_file, rename_to, delete_one,
  share_with, revoke_from,
}
use securevault.Base.{nat_eq, string_eq, bytes_eq, ◌<◌, List, [], ◌∷◌}
use securevault.Platform.{Platform}

module _ (p : Platform) (r : Repo) (law : IsCryptoLawful p) (bytes : IsDigestLawful p)
    (small : r.max_bytes < max_int64) where
  perform-AllHeld :
      (q : Request) (w : World)
      → AllHeld p r.store w.db w.disk
      → AllHeld p r.store (perform p r q w).db (perform p r q w).disk
  unfolding perform
  perform-AllHeld (put_file u name mime body) w k =
      (upload-AllHeld p r law bytes u name mime body small).at w k
  perform-AllHeld (list_files u) w k =
      (list_nodes-Keeps p (AllHeld p r.store) (AllHeld-IsQuiet p r law bytes) r u).at w k
  perform-AllHeld (stat_file u id) w k =
      (stat-Keeps p (AllHeld p r.store) (AllHeld-IsQuiet p r law bytes) r u id).at w k
  perform-AllHeld (get_file u id) w k =
      (download-Keeps p (AllHeld p r.store) (AllHeld-IsQuiet p r law bytes) r u id).at w k
  perform-AllHeld (rename_to u id name) w k =
      (rename_file-Keeps p (AllHeld p r.store) (AllHeld-IsQuiet p r law bytes) r u id name).at w k
  perform-AllHeld (delete_one u id) w k = delete_file-AllHeld p r law bytes u id w k
  perform-AllHeld (share_with u id name role) w k =
      (share-Keeps p (AllHeld p r.store) (AllHeld-IsQuiet p r law bytes) r u id name role).at w k
  perform-AllHeld (revoke_from u id name) w k =
      (revoke-Keeps p (AllHeld p r.store) (AllHeld-IsQuiet p r law bytes) r u id name).at w k

  -- Where the cipher and the digest are lawful and the upload limit is below the largest int64: if
  -- every row of the blobs has an object file that opens, under the wrapped key of the row, to a
  -- text of the recorded size with the digest that is its address, this holds after any sequence of
  -- requests on files, whatever external calls fail in them and however each request ends.
  pub perform_all-AllHeld :
      (qs : List Request) (w : World)
      → AllHeld p r.store w.db w.disk
      → AllHeld p r.store (perform_all p r qs w).db (perform_all p r qs w).disk
  unfolding perform_all
  perform_all-AllHeld [] w k = k
  perform_all-AllHeld (q ∷ qs) w k =
      perform_all-AllHeld qs (perform p r q w) (perform-AllHeld q w k)
