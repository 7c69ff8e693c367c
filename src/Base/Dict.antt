-- ===== src/Base/Dict.antt =====
-- Maps as association lists: Go's `map`, and the files of a disk by path.
use securevault.Base.Tests.{if◌then◌else◌}
use securevault.Base.Equality.{Eq, ◌==◌, eq_iff}
use mathlib.Core.Path.{◌≡◌}
use mathlib.Core.Option.{Option, none, some}
use mathlib.Core.List.{List, [], ◌∷◌}
use native.Mathlib.Omega.{arith}

module _ {ℓ κ} {K : Type ℓ} {V : Type κ} ⦃e : Eq K⦄ where
  -- `m[k]`
  unfoldable pub lookup : K → List (K × V) → Option V
  lookup k [] = none
  lookup k ((j, v) ∷ m) = if j == k then some v else lookup k m

  -- `delete(m, k)`
  unfoldable pub without : K → List (K × V) → List (K × V)
  without k [] = []
  without k (b ∷ m) = if b.0 == k then without k m else b ∷ without k m

  -- `m[k] = v`
  unfoldable pub insert : K → V → List (K × V) → List (K × V)
  unfolding without
  insert k v m = (k, v) ∷ without k m

  pub lookup-without :
      (j k : K) (m : List (K × V)) → lookup j (without k m) ≡ (if k == j then none else lookup j m)
  unfolding lookup without
  lookup-without j k [] = ground arith
  lookup-without j k ((i, v) ∷ m) =
      ground (arith, eq_iff i k, eq_iff i j, eq_iff k j, lookup-without j k m)

  pub lookup-insert :
      (j k : K) (v : V) (m : List (K × V))
      → lookup j (insert k v m) ≡ (if k == j then some v else lookup j m)
  unfolding lookup insert
  lookup-insert j k v m = ground (arith, eq_iff k j, lookup-without j k m)
