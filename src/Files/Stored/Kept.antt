-- ===== src/Files/Stored/Kept.antt =====
-- What each call of an upload leaves of the objects that the tables promise.
use securevault.Storage.Paths.{object_path-IsNoTemp}
use securevault.Files.Held.{object_path-eq_iff, AllHeld-of_Frame, AllHeld}
use securevault.Effect.Keeps.{Keeps}
use securevault.Files.Statements.{blob_of}
use securevault.Storage.Opens.{Opens}
use securevault.Database.Schema.{Db}
use securevault.Storage.Frame.{
  Frame-remove, Frame-commit, Frame-abort, Frame-stage, Frame-open_object, temp_path,
}
use securevault.Platform.Laws.{IsDigestLawful, IsCryptoLawful}
use securevault.Storage.Store.{
  stage, abort, remove, commit, open_object, Reader, object_path, Staged, Store,
}
use securevault.Effect.{World}
use securevault.Base.{nat_eq, string_eq, Bytes, bytes_eq, length, ℕ, ◌≡◌, sym, ap, ◌∙◌, ◌≢◌, none}
use securevault.Platform.{Platform}

-- A staged object: what its temporary file is called, and what the bytes of it open to.
pub record IsSealed (p : Platform) (s : Store) (st : Staged) (content raw : Bytes) : Type 0 where
  pub suffix : Bytes
  pub temp : st.tmp_path ≡ temp_path s suffix
  pub digest : st.hash ≡ p.sha256 content
  pub size_eq : st.size ≡ length content
  pub opens : Opens p s st.hash st.wrapped_dek raw content

module _ (p : Platform) (s : Store) (law : IsCryptoLawful p) (bytes : IsDigestLawful p)
    (d : Db) where
  abbrev Promised : World → Type 0
  Promised w = AllHeld p s d w.disk

  pub stage-Promised : (body : Reader) (limit : ℕ) → Keeps Promised (stage p s body limit)
  stage-Promised body limit = AllHeld-of_Frame p s _ d λ h b found text digest c d' es.
      Frame-stage p _ c d' es s body limit (object_path-IsNoTemp s h)

  pub open_object-Promised :
      (s' : Store) (hash wrapped : Bytes) → Keeps Promised (open_object p s' hash wrapped)
  open_object-Promised s' hash wrapped =
      AllHeld-of_Frame p s _ d
        λ h b found text digest c d' es. Frame-open_object p _ c d' es s' hash wrapped

  -- The object of a blob that the tables do not name may go.
  pub remove-Promised :
      (text : Bytes)
      → blob_of d (p.sha256 text) ≡ none
      → Keeps Promised (remove p s (p.sha256 text))
  remove-Promised text absent = AllHeld-of_Frame p s _ d λ h b found text' digest c d' es.
      Frame-remove p _ c d' es s (p.sha256 text) λ e. absurd (
        cc (
          found,
          absent,
          digest,
          object_path-eq_iff p s law bytes text text' (e ∙ ap (object_path s) digest),
        ))

  module _ (st : Staged) (content raw : Bytes) (sealed : IsSealed p s st content raw) where
    temp-differs : (h : Bytes) → st.tmp_path ≢ object_path s h
    temp-differs h e = absurd (object_path-IsNoTemp s h sealed.suffix (sym sealed.temp ∙ e))

    pub abort-Promised : Keeps Promised (abort p st)
    abort-Promised =
        AllHeld-of_Frame p s _ d
          λ h b found text digest c d' es. Frame-abort p _ c d' es st (temp-differs h)

    pub commit-Promised : blob_of d st.hash ≡ none → Keeps Promised (commit p s st)
    commit-Promised absent = AllHeld-of_Frame p s _ d λ h b found text digest c d' es.
        Frame-commit p _ c d' es s st (temp-differs h) λ e. absurd (
          cc (
            found,
            absent,
            digest,
            sealed.digest,
            object_path-eq_iff p s law bytes content text
                (ap (object_path s) (sym sealed.digest) ∙ (e ∙ ap (object_path s) digest)),
          ))
