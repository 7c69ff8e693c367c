-- ===== src/Storage/Tables.antt =====
-- No call of the store changes a table or an audit event, however it ends.
use securevault.Storage.Disk.{content_at}
use securevault.Effect.{M, World}
use securevault.Storage.Store.{
  object_path, stage, remove, abort, Reader, open_object, commit, Store, Staged,
}
use securevault.Database.Schema.{AuditRow, Db}
use securevault.Base.{
  nat_eq, string_eq, Bytes, bytes_eq, length, length-append, codes, ℕ, ◌<◌, ◌≡◌, refl, ap, ◌≢◌,
  Option, List, [], ◌∷◌, ◌++◌, arith,
}
use securevault.Platform.{Platform}
use securevault.Effect.Keeps.{Keeps}
use securevault.Storage.Frame.{
  Frame-stage, Frame-remove, Frame-open_object, Frame-abort, Frame, Frame-commit,
}

-- The tables and the audit log are as given.
pub record Tables (d : Db) (es : List AuditRow) (w : World) : Type 0 where
  pub tables : w.db ≡ d
  pub events : w.audit_events ≡ es

differs : (s t : Bytes) → length s < length t → s ≢ t
differs s t h e = absurd (ground (arith, ap length e))

-- A path that is neither of two.
abbrev away : Bytes → Bytes → Bytes
away s t = 0 ∷ s ++ t

away-left : (s t : Bytes) → s ≢ away s t
away-left s t = differs s (away s t) (omega (arith, length-append s t))

away-right : (s t : Bytes) → t ≢ away s t
away-right s t = differs t (away s t) (omega (arith, length-append s t))

module _ (p : Platform) (d : Db) (es : List AuditRow) where
  Tables-of_Frame :
      {A : Type 0} (path : Bytes) (m : M A)
      → ((c : Option Bytes) → Keeps (Frame path c d es) m)
      → Keeps (Tables d es) m
  Tables-of_Frame path m k = record {
    at = λ w h.
        let f =
          (k (content_at path w)).at w
            (record { file = refl; tables = h.tables; events = h.events }) in
        record { tables = f.tables; events = f.events };
  }

  pub Tables-commit : (s : Store) (st : Staged) → Keeps (Tables d es) (commit p s st)
  Tables-commit s st =
      let a = object_path s st.hash in
      Tables-of_Frame (away st.tmp_path a) _
        λ c. Frame-commit p _ c d es s st (away-left st.tmp_path a) (away-right st.tmp_path a)

  pub Tables-abort : (st : Staged) → Keeps (Tables d es) (abort p st)
  Tables-abort st =
      Tables-of_Frame (away st.tmp_path []) _
        λ c. Frame-abort p _ c d es st (away-left st.tmp_path [])

  pub Tables-remove : (s : Store) (hash : Bytes) → Keeps (Tables d es) (remove p s hash)
  Tables-remove s hash =
      let a = object_path s hash in
      Tables-of_Frame (away a []) _ λ c. Frame-remove p _ c d es s hash (away-left a [])

  pub Tables-open_object :
      (s : Store) (hash wrapped : Bytes) → Keeps (Tables d es) (open_object p s hash wrapped)
  Tables-open_object s hash wrapped =
      Tables-of_Frame [] _ λ c. Frame-open_object p _ c d es s hash wrapped

  pub Tables-stage : (s : Store) (r : Reader) (limit : ℕ) → Keeps (Tables d es) (stage p s r limit)
  Tables-stage s r limit = Tables-of_Frame [] _ λ c. Frame-stage p _ c d es s r limit λ suffix e.
      let dir = s.root ++ codes "/tmp" in
      absurd (
        ground (
          arith,
          ap length e,
          length-append (dir ++ codes "/" ++ codes "staged-") suffix,
          length-append (dir ++ codes "/") (codes "staged-"),
          length-append dir (codes "/"),
        ))
