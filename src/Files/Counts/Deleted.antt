-- ===== src/Files/Counts/Deleted.antt =====
-- The tables after the transaction of a delete.
use securevault.Files.Statements.{node_of}
use securevault.Database.Table.{
  find-delete, count_of-delete, find-update, update, count_of-delete_other, delete, find,
}
use securevault.Database.Schema.{NodeRow}
use mathlib.Core.Path.{subst}
use securevault.Base.{
  if◌then◌else◌, Bool-cases, ◌==◌, eq_iff, nat_eq, string_eq, Bytes, bytes_eq, eq_cases, ◌-◌,
  String, ◌≡◌, refl, sym, ap, ◌∙◌, inl, inr, true, false, Option, none, some, arith,
}
use securevault.Files.Counts.{refs, IsReferenced, blob_of, BlobRow, Db, IsCounted, refs_of}

abbrev pub drop_one : BlobRow → BlobRow
drop_one b = record b { ref_count = b.ref_count - 1 }

-- The blob with one reference less: no row any more, where that was the last one.
abbrev pub without_reference : Bytes → Db → Db
without_reference hash d = record d {
  blobs =
      if refs_of d hash == 1
      then delete (λ b. b.hash) hash (update (λ b. b.hash) hash drop_one d.blobs)
      else update (λ b. b.hash) hash drop_one d.blobs;
}

abbrev pub without_node : String → Db → Db
without_node id d = record d {
  nodes = delete (λ n. n.id) id d.nodes;
  grants = delete (λ g. g.node_id) id d.grants;
}

-- The row of a hash in the new table, by what it was.
abbrev pub dropped : Option BlobRow → Option BlobRow
dropped none = none
dropped (some b) = if b.ref_count == 1 then none else some (drop_one b)

abbrev lowered : Option BlobRow → Option BlobRow
lowered none = none
lowered (some b) = some (drop_one b)

dropped_last : (o : Option BlobRow) → (refs o == 1) ≡ true → dropped o ≡ none
dropped_last none h = refl
dropped_last (some b) h = rw (h)

dropped_more : (o : Option BlobRow) → (refs o == 1) ≡ false → dropped o ≡ lowered o
dropped_more none h = refl
dropped_more (some b) h = rw (h)

refs-dropped : (o : Option BlobRow) → refs (dropped o) ≡ refs o - 1
refs-dropped none = refl
refs-dropped (some b) = ground arith

dropped-IsReferenced : (o : Option BlobRow) → IsReferenced o → IsReferenced (dropped o)
dropped-IsReferenced none k = tt
dropped-IsReferenced (some b) k = elim (Bool-cases (b.ref_count == 1)) [
  | inl h ↦ rw (h) tt
  | inr h ↦ rw (h) (ground (arith, eq_iff b.ref_count 1))
]

module _ (hash : Bytes) (d : Db) (h : Bytes) where
  updated :
      find (λ b. b.hash) h (update (λ b. b.hash) hash drop_one d.blobs)
      ≡ (if hash == h then lowered (blob_of d h) else blob_of d h)
  updated = find-update (λ b. b.hash) h hash drop_one d.blobs (λ b. refl)

  pub blob_of-without_reference :
      blob_of (without_reference hash d) h
      ≡ (if hash == h then dropped (blob_of d h) else blob_of d h)
  blob_of-without_reference = elim (Bool-cases (refs_of d hash == 1)) [
    | inl last ↦ rw (last) (
        find-delete (λ b. b.hash) h hash (update (λ b. b.hash) hash drop_one d.blobs)
        ∙ elim (eq_cases hash h) [
          | inl (e, same) ↦
              rw (e) (
                sym (dropped_last (blob_of d h) (subst (λ k. (refs_of d k == 1) ≡ true) same last)))
          | inr (e, differ) ↦ rw (e) (updated ∙ rw (e))
        ])
    | inr more ↦ rw (more) (
        updated ∙ elim (eq_cases hash h) [
          | inl (e, same) ↦
              rw (e) (
                sym
                  (dropped_more (blob_of d h) (subst (λ k. (refs_of d k == 1) ≡ false) same more)))
          | inr (e, differ) ↦ rw (e)
        ])
  ]

  refs_of-without_reference :
      refs_of (without_reference hash d) h ≡ (if hash == h then refs_of d h - 1 else refs_of d h)
  refs_of-without_reference = ap refs blob_of-without_reference ∙ elim (Bool-cases (hash == h)) [
    | inl e ↦ rw (e) (refs-dropped (blob_of d h))
    | inr e ↦ rw (e)
  ]

  without_reference-IsReferenced :
      IsReferenced (blob_of d h) → IsReferenced (blob_of (without_reference hash d) h)
  without_reference-IsReferenced k =
      subst IsReferenced (sym blob_of-without_reference) (elim (Bool-cases (hash == h)) [
        | inl e ↦ rw (e) (dropped-IsReferenced (blob_of d h) k)
        | inr e ↦ rw (e) k
      ])

pub deleted-IsCounted :
    (n : NodeRow) (d : Db)
    → IsCounted d
    → node_of d n.id ≡ some n
    → IsCounted (without_reference n.blob_hash (without_node n.id d))
deleted-IsCounted n d c found = record {
  exact = λ h. ground (
    arith,
    refs_of-without_reference n.blob_hash (without_node n.id d) h,
    c.exact h,
    count_of-delete_other (λ n. n.id) (λ n. n.blob_hash) n.id h n d.nodes found (c.once n.id),
  );
  referenced =
      λ h. without_reference-IsReferenced n.blob_hash (without_node n.id d) h (c.referenced h);
  once = λ i. ground (arith, c.once i, count_of-delete (λ n. n.id) i n.id d.nodes);
}
