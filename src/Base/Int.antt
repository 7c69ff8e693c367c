-- ===== src/Base/Int.antt =====
-- int64: a value and its bit pattern.
use Prim.Native.Nat.{ℕ, ◌-◌, ◌%◌}
use securevault.Base.Tests.{ltb, if◌then◌else◌}

-- `negsuc n` is -(n + 1).
pub data ℤ : Type 0 where
  pos : ℕ → ℤ
  negsuc : ℕ → ℤ

-- The int64 that a product of non-negative numbers wraps round to.
unfoldable pub wrap64 : ℕ → ℤ
wrap64 n =
    let w = n % 18446744073709551616 in
    if ltb w 9223372036854775808 then pos w else negsuc (18446744073709551615 - w)
