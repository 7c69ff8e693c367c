-- ===== src/Auth/Password/Steady.antt =====
-- Hashing a password changes no table.
use securevault.Effect.{◌>>=◌, os_call, tick, World}
use securevault.Effect.Keeps.{Keeps-pure, Keeps-gets, Keeps-bind, Keeps-os_call, Keeps}
use securevault.Database.Schema.{Db}
use securevault.Auth.Password.{hash_password}
use securevault.Storage.Crypto.{random_bytes}
use securevault.Effect.RollsBack.{Steady-of_Keeps, Steady}
use securevault.Base.{nat_eq, string_eq, Bytes, bytes_eq, ok, ℕ, ◌≡◌, arith}
use securevault.Platform.{Platform}

module _ (p : Platform) where
  Keeps-random_bytes : (d : Db) (n : ℕ) → Keeps (λ w. w.db ≡ d) (random_bytes p n)
  unfolding random_bytes
  Keeps-random_bytes d n =
      Keeps-bind _ _ (Keeps-gets _) λ t. Keeps-bind _ _ (Keeps-os_call p λ w h. h) λ _. Keeps-pure _

  pub random_bytes-Steady : (n : ℕ) → Steady (random_bytes p n)
  random_bytes-Steady n = Steady-of_Keeps _ λ d. Keeps-random_bytes d n

  pub hash_password-Steady : (password : Bytes) → Steady (hash_password p password)
  unfolding hash_password
  hash_password-Steady password =
      Steady-of_Keeps _ λ d. Keeps-bind _ _ (Keeps-random_bytes d _) λ salt. Keeps-pure _

  pub hash_password-tick :
      (password : Bytes) (w : World) {hash : Bytes} {w' : World}
      → hash_password p password w ≡ (ok hash, w')
      → w' ≡ tick w
  unfolding hash_password random_bytes os_call ◌>>=◌
  hash_password-tick password w h = ground arith
