-- ===== src/Storage/Crypto.antt =====
-- internal/storage/crypto.go: keys and authenticated encryption.
use securevault.Base.{
  ltb, if◌then◌else◌, ◌==◌, nat_eq, string_eq, Bytes, bytes_eq, length, take, drop, internal, ℕ,
  Bool, ◌||◌, ◌++◌,
}
use securevault.Platform.{Platform}
use securevault.Effect.{M, pure, raise, ◌>>=◌, ◌>>◌, gets, raise_if, or_raise, os_call}

abbrev pub nonce_size : ℕ
nonce_size = 12

abbrev pub dek_size : ℕ
dek_size = 32

-- The key lengths that aes.NewCipher takes.
abbrev pub is_aes_key : Bytes → Bool
is_aes_key key = length key == 16 || length key == 24 || length key == 32

-- The cipher of a key is its key. cipher.NewGCM does not fail on an AES block.
unfoldable pub new_gcm : Bytes → M Bytes
new_gcm key = if is_aes_key key then pure key else raise internal

module _ (p : Platform) where
  -- `make([]byte, n)` and rand.Read.
  unfoldable pub random_bytes : ℕ → M Bytes
  unfolding os_call
  random_bytes n = do t ← gets (λ w. w.step); os_call p; pure (p.random t n)

  unfoldable pub new_dek : M Bytes
  unfolding random_bytes
  new_dek = random_bytes dek_size

  unfoldable pub wrap_dek : Bytes → Bytes → Bytes → M Bytes
  unfolding random_bytes new_gcm
  wrap_dek kek dek aad = do
    gcm ← new_gcm kek
    nonce ← random_bytes nonce_size
    pure (nonce ++ p.gcm_seal gcm nonce dek aad)

  unfoldable pub unwrap_dek : Bytes → Bytes → Bytes → M Bytes
  unfolding new_gcm
  unwrap_dek kek wrapped aad = do
    gcm ← new_gcm kek
    raise_if (ltb (length wrapped) nonce_size) internal
    or_raise (p.gcm_open gcm (take nonce_size wrapped) (drop nonce_size wrapped) aad) internal

  unfoldable pub encrypt : Bytes → Bytes → Bytes → M (Bytes × Bytes)
  unfolding random_bytes new_gcm
  encrypt dek plaintext aad = do
    gcm ← new_gcm dek
    nonce ← random_bytes nonce_size
    pure (nonce, p.gcm_seal gcm nonce plaintext aad)

  unfoldable pub decrypt : Bytes → Bytes → Bytes → Bytes → M Bytes
  unfolding new_gcm
  decrypt dek nonce sealed aad = do
    gcm ← new_gcm dek
    or_raise (p.gcm_open gcm nonce sealed aad) internal
