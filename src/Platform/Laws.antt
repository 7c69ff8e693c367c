-- ===== src/Platform/Laws.antt =====
-- The documented behaviour of the platform that theorems name as hypotheses.
use securevault.Base.{nat_eq, string_eq, Bytes, IsByte, bytes_eq, length, All, ℕ, ◌≡◌, none, some}
use securevault.Platform.{Platform}

-- A digest of SHA-256 has 32 bytes, rand.Read fills its buffer, and Open under the key, the nonce
-- and the data of Seal gives the text back.
pub record IsCryptoLawful (p : Platform) : Type 0 where
  pub length-sha256 : (text : Bytes) → length (p.sha256 text) ≡ 32
  pub length-random : (t n : ℕ) → length (p.random t n) ≡ n
  pub open-seal :
      (key nonce text aad : Bytes)
      → p.gcm_open key nonce (p.gcm_seal key nonce text aad) aad ≡ some text

-- A digest of SHA-256 is made of bytes.
abbrev pub IsDigestLawful : Platform → Type 0
IsDigestLawful p = (text : Bytes) → All IsByte (p.sha256 text)

-- No external call fails.
abbrev pub NoFault : Platform → Type 0
NoFault p = (t : ℕ) → p.fault t ≡ none

-- rand.Read and IDKey give bytes, and a key of IDKey has the length that was asked for.
pub record IsPasswordLawful (p : Platform) : Type 0 where
  pub bytes-random : (t n : ℕ) → All IsByte (p.random t n)
  pub bytes-key :
      (password salt : Bytes) (time memory threads n : ℕ)
      → All IsByte (p.argon2_id_key password salt time memory threads n)
  pub length-key :
      (password salt : Bytes) (time memory threads n : ℕ)
      → length (p.argon2_id_key password salt time memory threads n) ≡ n
