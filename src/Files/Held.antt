-- ===== src/Files/Held.antt =====
-- The objects that the table of blobs promises, on the disk.
use securevault.Storage.Disk.{content_at}
use securevault.Storage.Tables.{Tables}
use securevault.Storage.Frame.{Frame}
use securevault.Files.Statements.{blob_of}
use securevault.Storage.Paths.{object_path-injective}
use securevault.Effect.Keeps.{Keeps}
use securevault.Storage.Opens.{Opens}
use securevault.Platform.Laws.{IsDigestLawful, IsCryptoLawful}
use securevault.Database.Schema.{AuditRow, BlobRow, Db}
use securevault.Effect.{M}
use securevault.Storage.Store.{object_path, Store}
use mathlib.Core.Path.{subst}
use securevault.Base.{
  nat_eq, string_eq, Bytes, bytes_eq, length, lookup, ℕ, ◌≡◌, refl, sym, ◌∙◌, Option, some, List,
}
use securevault.Platform.{Platform}

-- The object file of an address opens, under the wrapped key, to a text of the size with that digest.
pub record Held (p : Platform) (s : Store) (h wrapped : Bytes) (size : ℕ)
    (disk : List (Bytes × Bytes)) : Type 0 where
  pub text : Bytes
  pub raw : Bytes
  pub file : lookup (object_path s h) disk ≡ some raw
  pub digest : h ≡ p.sha256 text
  pub size_eq : size ≡ length text
  pub opens : Opens p s h wrapped raw text

-- Every blob of the table is held.
abbrev pub AllHeld : Platform → Store → Db → List (Bytes × Bytes) → Type 0
AllHeld p s d disk =
    (h : Bytes) (b : BlobRow) → blob_of d h ≡ some b → Held p s h b.wrapped_dek b.size_bytes disk

module _ (p : Platform) (s : Store) where
  -- The same bytes in the object file, maybe on another disk.
  pub Held-moved :
      (h wrapped : Bytes) (size : ℕ) (disk disk' : List (Bytes × Bytes))
      → lookup (object_path s h) disk' ≡ lookup (object_path s h) disk
      → Held p s h wrapped size disk
      → Held p s h wrapped size disk'
  Held-moved h wrapped size disk disk' e k = record {
    text = k.text;
    raw = k.raw;
    file = e ∙ k.file;
    digest = k.digest;
    size_eq = k.size_eq;
    opens = k.opens;
  }

  module _ (law : IsCryptoLawful p) (bytes : IsDigestLawful p) where
    -- Two addresses that are held have the same file only if they are the same.
    pub object_path-eq_iff :
        (text text' : Bytes)
        → object_path s (p.sha256 text) ≡ object_path s (p.sha256 text')
        → p.sha256 text ≡ p.sha256 text'
    object_path-eq_iff text text' =
        object_path-injective s _ _ (bytes text) (bytes text')
          (law.length-sha256 text ∙ sym (law.length-sha256 text'))

  -- A call that touches no file of an object that is held keeps them held.
  pub AllHeld-of_Frame :
      {A : Type 0} (m : M A) (d : Db)
      → ((h : Bytes) (b : BlobRow)
          → blob_of d h ≡ some b
          → (text : Bytes) → h ≡ p.sha256 text
          → (c : Option Bytes) (d' : Db) (es : List AuditRow)
          → Keeps (Frame (object_path s h) c d' es) m)
      → Keeps (λ w. AllHeld p s d w.disk) m
  AllHeld-of_Frame m d k = record {
    at = λ w held h b found.
        let path = object_path s h in
        let f =
          (k h b found (held h b found).text (held h b found).digest (content_at path w) w.db
              w.audit_events).at
            w (record { file = refl; tables = refl; events = refl }) in
        Held-moved h b.wrapped_dek b.size_bytes w.disk (m w).1.disk f.file (held h b found);
  }

  -- Where it changes no table either, it keeps the blobs of the tables held.
  pub Stored-of_AllHeld :
      {A : Type 0} (m : M A)
      → ((d : Db) (es : List AuditRow) → Keeps (Tables d es) m)
      → ((d : Db) → Keeps (λ w. AllHeld p s d w.disk) m)
      → Keeps (λ w. AllHeld p s w.db w.disk) m
  Stored-of_AllHeld m t k = record {
    at = λ w held.
        let same =
          ((t w.db w.audit_events).at w (record { tables = refl; events = refl })).tables in
        subst (λ d. AllHeld p s d (m w).1.disk) (sym same) ((k w.db).at w held);
  }
