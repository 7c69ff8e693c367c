-- ===== src/Files/Stored/Blobs.antt =====
-- The tables after an upload and after a delete promise no more than the disk holds.
use securevault.Files.Counts.Inserted.{blob_of-with_reference, referenced_row, with_reference}
use securevault.Files.Statements.{blob_of}
use securevault.Files.Counts.Deleted.{
  drop_one, blob_of-without_reference, dropped, without_reference,
}
use securevault.Files.Held.{Held, AllHeld}
use securevault.Files.Counts.{refs, refs_of}
use securevault.Storage.Store.{Store}
use securevault.Database.Schema.{BlobRow, Db}
use mathlib.Core.Path.{subst}
use securevault.Base.{
  if◌then◌else◌, Bool-cases, ◌==◌, eq_refl, nat_eq, string_eq, Bytes, bytes_eq, eq_cases, ℕ, suc,
  ◌≡◌, refl, sym, ap, ◌∙◌, inl, inr, Option, none, some, List,
}
use securevault.Platform.{Platform}

module _ (p : Platform) (s : Store) (disk : List (Bytes × Bytes)) where
  referenced_row-Held :
      (hash : Bytes) (size : ℕ) (wrapped : Bytes) (d : Db)
      → AllHeld p s d disk
      → (blob_of d hash ≡ none → Held p s hash wrapped size disk)
      → (o : Option BlobRow) → blob_of d hash ≡ o
      → let b = referenced_row hash size wrapped o in Held p s hash b.wrapped_dek b.size_bytes disk
  referenced_row-Held hash size wrapped d held new none e = new e
  referenced_row-Held hash size wrapped d held new (some b) e = held hash b e

  -- One more reference, to a blob that is held or has become so.
  pub with_reference-AllHeld :
      (hash : Bytes) (size : ℕ) (wrapped : Bytes) (d : Db)
      → AllHeld p s d disk
      → (blob_of d hash ≡ none → Held p s hash wrapped size disk)
      → AllHeld p s (with_reference hash size wrapped d) disk
  with_reference-AllHeld hash size wrapped d held new h b found = elim (eq_cases hash h) [
    | inl (e, same) ↦
        let row = referenced_row hash size wrapped (blob_of d hash) in
        let there : blob_of (with_reference hash size wrapped d) h ≡ some row =
          rw (blob_of-with_reference hash size wrapped d h, e) refl in
        let row_eq : row ≡ b = cc (there, found) in
        subst (λ (b : BlobRow). Held p s h b.wrapped_dek b.size_bytes disk) row_eq
          (subst (λ k. Held p s k row.wrapped_dek row.size_bytes disk) same
            (referenced_row-Held hash size wrapped d held new (blob_of d hash) refl))
    | inr (e, differ) ↦
        held h b (sym (blob_of-with_reference hash size wrapped d h ∙ rw (e) refl) ∙ found)
  ]

  dropped-Held :
      (h : Bytes) (o : Option BlobRow) (b : BlobRow)
      → ((b0 : BlobRow) → o ≡ some b0 → Held p s h b0.wrapped_dek b0.size_bytes disk)
      → dropped o ≡ some b
      → Held p s h b.wrapped_dek b.size_bytes disk
  dropped-Held h none b held e = absurd (cc e)
  dropped-Held h (some b0) b held e = elim (Bool-cases (b0.ref_count == 1)) [
    | inl last ↦ absurd (cc (e, sym (ap (λ c. if c then none else some (drop_one b0)) last)))
    | inr more ↦
        let row_eq : drop_one b0 ≡ b =
          cc (sym (ap (λ c. if c then none else some (drop_one b0)) more) ∙ e) in
        subst (λ (b : BlobRow). Held p s h b.wrapped_dek b.size_bytes disk) row_eq (held b0 refl)
  ]

  -- One reference less.
  pub without_reference-AllHeld :
      (hash : Bytes) (d : Db) → AllHeld p s d disk → AllHeld p s (without_reference hash d) disk
  without_reference-AllHeld hash d held h b found = elim (Bool-cases (hash == h)) [
    | inl e ↦
        dropped-Held h (blob_of d h) b (λ b0 e0. held h b0 e0)
          (sym (blob_of-without_reference hash d h ∙ rw (e) refl) ∙ found)
    | inr e ↦ held h b (sym (blob_of-without_reference hash d h ∙ rw (e) refl) ∙ found)
  ]

-- The last reference takes the row of the blob with it.
pub without_reference-last :
    (hash : Bytes) (d : Db)
    → suc 0 ≡ refs_of d hash
    → blob_of (without_reference hash d) hash ≡ none
without_reference-last hash d last =
    blob_of-without_reference hash d hash ∙ rw (eq_refl hash) (gone (blob_of d hash) last)
  where
    gone : (o : Option BlobRow) → suc 0 ≡ refs o → dropped o ≡ none
    gone none e = refl
    gone (some b) e = rw (← e) refl
