-- ===== src/Files/Counts/Inserted.antt =====
-- The tables after the transaction of an upload.
use mathlib.Core.Path.{subst}
use securevault.Database.Table.{find-update, count_of-eq-zero, update}
use securevault.Files.Statements.{node_of}
use securevault.Database.Schema.{BlobRow, NodeRow}
use securevault.Base.{
  if◌then◌else◌, Option-cases, is_some, ◌==◌, eq_iff, nat_eq, string_eq, Bytes, bytes_eq, eq_cases,
  ℕ, suc, ◌≡◌, refl, sym, ap, ◌∙◌, inl, inr, Option, none, some, ◌∷◌, arith,
}
use securevault.Files.Counts.{refs, IsReferenced, blob_of, Db, IsCounted, refs_of}

-- The blob with one more reference: a new row, or the row that there is.
abbrev pub with_reference : Bytes → ℕ → Bytes → Db → Db
with_reference hash size wrapped d = record d {
  blobs =
      if is_some (blob_of d hash)
      then update (λ b. b.hash) hash (λ b. record b { ref_count = suc b.ref_count }) d.blobs
      else record { hash = hash; size_bytes = size; wrapped_dek = wrapped; ref_count = 1 }
        ∷ d.blobs;
}

abbrev pub with_node : NodeRow → Db → Db
with_node n d = record d { nodes = n ∷ d.nodes }

-- The row of the hash in the new table.
abbrev pub referenced_row : Bytes → ℕ → Bytes → Option BlobRow → BlobRow
referenced_row hash size wrapped none = record {
  hash = hash;
  size_bytes = size;
  wrapped_dek = wrapped;
  ref_count = 1;
}
referenced_row hash size wrapped (some b) = record b { ref_count = suc b.ref_count }

pub blob_of-with_reference :
    (hash : Bytes) (size : ℕ) (wrapped : Bytes) (d : Db) (h : Bytes)
    → blob_of (with_reference hash size wrapped d) h ≡ (
        if hash == h then some (referenced_row hash size wrapped (blob_of d hash)) else blob_of d h)
blob_of-with_reference hash size wrapped d h = elim (Option-cases (blob_of d hash)) [
  | inl absent ↦ rw (absent)
  | inr (b, found) ↦ rw (found) (
      find-update (λ b. b.hash) h hash (λ b. record b { ref_count = suc b.ref_count }) d.blobs
        (λ b. refl)
      ∙ ground (arith, eq_iff hash h))
]

refs-referenced_row :
    (hash : Bytes) (size : ℕ) (wrapped : Bytes) (o : Option BlobRow)
    → (referenced_row hash size wrapped o).ref_count ≡ suc (refs o)
refs-referenced_row hash size wrapped none = refl
refs-referenced_row hash size wrapped (some b) = refl

module _ (hash : Bytes) (size : ℕ) (wrapped : Bytes) (d : Db) (h : Bytes) where
  refs_of-with_reference :
      refs_of (with_reference hash size wrapped d) h
      ≡ (if hash == h then suc (refs_of d h) else refs_of d h)
  refs_of-with_reference =
      ap refs (blob_of-with_reference hash size wrapped d h) ∙ elim (eq_cases hash h) [
        | inl (e, same) ↦ rw (e) (
            refs-referenced_row hash size wrapped (blob_of d hash)
            ∙ ap (λ k. suc (refs_of d k)) same)
        | inr (e, differ) ↦ rw (e)
      ]

  with_reference-IsReferenced :
      IsReferenced (blob_of d h) → IsReferenced (blob_of (with_reference hash size wrapped d) h)
  with_reference-IsReferenced k =
      subst IsReferenced (sym (blob_of-with_reference hash size wrapped d h))
        (elim (eq_cases hash h) [
          | inl (e, same) ↦
              rw (e) (omega (arith, refs-referenced_row hash size wrapped (blob_of d hash)))
          | inr (e, differ) ↦ rw (e) k
        ])

pub inserted-IsCounted :
    (size : ℕ) (wrapped : Bytes) (n : NodeRow) (d : Db)
    → IsCounted d
    → node_of d n.id ≡ none
    → IsCounted (with_node n (with_reference n.blob_hash size wrapped d))
inserted-IsCounted size wrapped n d c new = record {
  exact = λ h. ground (arith, refs_of-with_reference n.blob_hash size wrapped d h, c.exact h);
  referenced = λ h. with_reference-IsReferenced n.blob_hash size wrapped d h (c.referenced h);
  once =
      λ i. ground (arith, c.once i, eq_iff n.id i, count_of-eq-zero (λ n. n.id) n.id d.nodes new);
}
