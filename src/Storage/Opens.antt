-- ===== src/Storage/Opens.antt =====
-- A sealed object, under the key that was wrapped for it, passes the checks of a read.
use securevault.Effect.Bind.{on_error-eq_of_ok, bind-eq_of_ok, pass-eq_of_false}
use securevault.Base.{
  ltb, ◌==◌, eq_refl, nat_eq, string_eq, Bytes, bytes_beq, bytes_eq, length, take, drop,
  length-append, take-append_of, drop-append_of, ok, suc, ◌≡◌, ◌∙◌, true, false, not, ◌||◌, ◌++◌,
  arith,
}
use securevault.Platform.{Platform}
use securevault.Platform.Laws.{IsCryptoLawful}
use securevault.Effect.{pure, World, ◌>>=◌}
use securevault.Storage.Crypto.{is_aes_key, unwrap_dek, decrypt}
use securevault.Storage.Store.{Store, verify, obj_magic}

-- The bytes `raw` of an object file and the wrapped key give the text, at any time.
abbrev pub Opens : Platform → Store → Bytes → Bytes → Bytes → Bytes → Type 0
Opens p s hash wrapped raw text = (w : World) → verify p s hash wrapped raw w ≡ (ok text, w)

module _ (p : Platform) (law : IsCryptoLawful p) where
  unwrap-wrap :
      (kek nonce dek aad : Bytes) (w : World)
      → is_aes_key kek ≡ true
      → length nonce ≡ 12
      → unwrap_dek p kek (nonce ++ p.gcm_seal kek nonce dek aad) aad w ≡ (ok dek, w)
  unfolding unwrap_dek ◌>>=◌
  unwrap-wrap kek nonce dek aad w key size = rw (
    key,
    long,
    take-append_of 12 nonce c size,
    drop-append_of 12 nonce c size,
    law.open-seal kek nonce dek aad,
  )
    where
      c : Bytes
      c = p.gcm_seal kek nonce dek aad

      long : ltb (length (nonce ++ c)) 12 ≡ false
      long = ground (arith, length-append nonce c)

  decrypt-encrypt :
      (dek nonce text aad : Bytes) (w : World)
      → is_aes_key dek ≡ true
      → decrypt p dek nonce (p.gcm_seal dek nonce text aad) aad w ≡ (ok text, w)
  unfolding decrypt ◌>>=◌
  decrypt-encrypt dek nonce text aad w key = rw (key, law.open-seal dek nonce text aad)

  -- What `stage` writes and returns opens, to the text that it was given.
  pub sealed-Opens :
      (s : Store) (text dek nonce wrap_nonce : Bytes)
      → is_aes_key s.kek ≡ true
      → is_aes_key dek ≡ true
      → length nonce ≡ 12
      → length wrap_nonce ≡ 12
      → Opens p s
          (p.sha256 text)
          (wrap_nonce ++ p.gcm_seal s.kek wrap_nonce dek (p.sha256 text))
          (obj_magic ++ (nonce ++ p.gcm_seal dek nonce text (p.sha256 text)))
          text
  unfolding verify bytes_beq pure
  sealed-Opens s text dek nonce wrap_nonce kek key size wrap_size w =
      pass-eq_of_false _ _ _ w long
      ∙ (bind-eq_of_ok _ _ w
            (on_error-eq_of_ok _ _ _ w (unwrap-wrap s.kek wrap_nonce dek hash w kek wrap_size))
          ∙ (bind-eq_of_ok _ _ w (on_error-eq_of_ok _ _ _ w plain) ∙ pass-eq_of_false _ _ _ w same))
    where
      hash : Bytes
      hash = p.sha256 text

      c : Bytes
      c = p.gcm_seal dek nonce text hash

      long : (ltb (suc (suc (suc (suc (length (nonce ++ c)))))) 16 || false) ≡ false
      long = ground (arith, length-append nonce c)

      plain : decrypt p dek (take 12 (nonce ++ c)) (drop 12 (nonce ++ c)) hash w ≡ (ok text, w)
      plain =
          rw (take-append_of 12 nonce c size, drop-append_of 12 nonce c size)
            (decrypt-encrypt dek nonce text hash w key)

      same : not (hash == hash) ≡ false
      same = rw (eq_refl hash)
