-- ===== src/Database/Table.antt =====
-- A table as the list of its rows, read and written by the value of one column. These are the
-- shapes of `WHERE column = $1` that the program's SQL uses.
use securevault.Base.{
  ℕ, suc, ◌+◌, ◌≤◌, ◌≡◌, refl, Option, none, some, List, [], ◌∷◌, arith, Eq, ◌==◌, eq_iff,
  if◌then◌else◌,
}

module _ {ℓ κ} {A : Type ℓ} {K : Type κ} ⦃e : Eq K⦄ (column : A → K) where
  -- SELECT … WHERE column = k, for a column that identifies the row.
  abbrev pub find : K → List A → Option A
  find k [] = none
  find k (x ∷ xs) = if column x == k then some x else find k xs

  -- SELECT count(*) … WHERE column = k
  abbrev pub count_of : K → List A → ℕ
  count_of k [] = 0
  count_of k (x ∷ xs) = if column x == k then suc (count_of k xs) else count_of k xs

  -- UPDATE … WHERE column = k
  abbrev pub update : K → (A → A) → List A → List A
  update k f [] = []
  update k f (x ∷ xs) = (if column x == k then f x else x) ∷ update k f xs

  -- DELETE … WHERE column = k
  abbrev pub delete : K → List A → List A
  delete k [] = []
  delete k (x ∷ xs) = if column x == k then delete k xs else x ∷ delete k xs

module _ {ℓ κ} {A : Type ℓ} {K : Type κ} ⦃e : Eq K⦄ (column : A → K) where
  -- What is found has the key that was asked for.
  pub column-find : (k : K) (x : A) (xs : List A) → find column k xs ≡ some x → column x ≡ k
  column-find k x [] h = cc
  column-find k x (y ∷ xs) h = ground (arith, eq_iff (column y) k, column-find k x xs)

  pub find-update :
      (j k : K) (f : A → A) (xs : List A)
      → ((x : A) → column (f x) ≡ column x)
      → find column j (update column k f xs) ≡ (
          if k == j
          then elim (find column j xs) [ none ↦ none | some x ↦ some (f x) ]
          else find column j xs)
  find-update j k f [] h = ground arith
  find-update j k f (x ∷ xs) h = ground (
    arith,
    h x,
    eq_iff (column x) k,
    eq_iff (column x) j,
    eq_iff k j,
    eq_iff (column (f x)) j,
    find-update j k f xs h,
  )

  pub find-delete :
      (j k : K) (xs : List A)
      → find column j (delete column k xs) ≡ (if k == j then none else find column j xs)
  find-delete j k [] = ground arith
  find-delete j k (x ∷ xs) =
      ground (arith, eq_iff (column x) k, eq_iff (column x) j, eq_iff k j, find-delete j k xs)

  -- A key that no row has is not found, and deleting it changes nothing.
  pub find-eq-none : (k : K) (xs : List A) → count_of column k xs ≡ 0 → find column k xs ≡ none
  find-eq-none k [] h = refl
  find-eq-none k (x ∷ xs) h = ground (arith, find-eq-none k xs)

  pub count_of-eq-zero : (k : K) (xs : List A) → find column k xs ≡ none → count_of column k xs ≡ 0
  count_of-eq-zero k [] h = refl
  count_of-eq-zero k (x ∷ xs) h = ground (arith, count_of-eq-zero k xs)

  pub delete-absent : (k : K) (xs : List A) → find column k xs ≡ none → delete column k xs ≡ xs
  delete-absent k [] h = refl
  delete-absent k (x ∷ xs) h = ground (arith, delete-absent k xs)

  pub count_of-delete :
      (j k : K) (xs : List A)
      → count_of column j (delete column k xs) ≡ (if k == j then 0 else count_of column j xs)
  count_of-delete j k [] = ground arith
  count_of-delete j k (x ∷ xs) =
      ground (arith, eq_iff (column x) k, eq_iff (column x) j, eq_iff k j, count_of-delete j k xs)

-- Deleting the one row of a key lowers the count of the value that this row has in another column.
module _ {ℓ κ μ} {A : Type ℓ} {K : Type κ} {L : Type μ} ⦃e : Eq K⦄ ⦃d : Eq L⦄ (column : A → K)
    (other : A → L) where
  pub count_of-delete_other :
      (k : K) (l : L) (x : A) (xs : List A)
      → find column k xs ≡ some x
      → count_of column k xs ≤ 1
      → count_of other l xs
        ≡ count_of other l (delete column k xs) + (if other x == l then 1 else 0)
  count_of-delete_other k l x [] h once = cc
  count_of-delete_other k l x (y ∷ xs) h once = ground (
    arith,
    eq_iff (column y) k,
    find-eq-none column k xs,
    delete-absent column k xs,
    count_of-delete_other k l x xs,
  )

  -- A write that leaves the other column alone leaves its counts alone.
  pub count_of-update :
      (k : K) (l : L) (f : A → A) (xs : List A)
      → ((x : A) → other (f x) ≡ other x)
      → count_of other l (update column k f xs) ≡ count_of other l xs
  count_of-update k l f [] h = refl
  count_of-update k l f (x ∷ xs) h = ground (arith, h x, count_of-update k l f xs h)
