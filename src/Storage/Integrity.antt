-- ===== src/Storage/Integrity.antt =====
-- No text leaves the store unverified.
use securevault.Storage.Disk.{content_at, read_file}
use securevault.Base.{
  ◌==◌, eq_iff, nat_eq, string_eq, Bytes, bytes_eq, length, Result, corrupt, ok, err, suc, ◌≡◌,
  refl, ap, ◌⊎◌, inl, inr, false, not, none, some, arith,
}
use securevault.Platform.{Platform}
use securevault.Effect.{pure, ◌>>=◌, World}
use securevault.Effect.Bind.{on_error-eq-err, bind_cases, pass_cases, bind_ok, pass_ok}
use securevault.Storage.Store.{object_path, hash_size, open_object, Store, verify}

pub verify_sound :
    (p : Platform) (s : Store) (hash dek raw text : Bytes) (w w' : World)
    → verify p s hash dek raw w ≡ (ok text, w')
    → p.sha256 text ≡ hash
unfolding verify pure
verify_sound p s hash dek raw text w w' h = pass_ok _ _ _ w h λ _ h1.
    bind_ok _ _ w h1 λ key w2 _ h2.
      bind_ok _ _ w2 h2
        λ plain w3 _ h3. pass_ok _ _ _ w3 h3 λ e h4. ground (arith, eq_iff (p.sha256 plain) hash)

-- A verified text, or the error of a corrupt object, and nothing else.
abbrev pub IsVerified : Platform → Bytes → Result Bytes → Type 0
IsVerified p hash r = (r ≡ err corrupt) ⊎ ((text : Bytes) × (r ≡ ok text) × (p.sha256 text ≡ hash))

verify-IsVerified :
    (p : Platform) (s : Store) (hash dek raw : Bytes) (w : World)
    → IsVerified p hash (verify p s hash dek raw w).0
unfolding verify pure
verify-IsVerified p s hash dek raw w =
    pass_cases Q _ _ _ w (λ _. inl refl)
      λ _.
        bind_cases Q _ _ w
          (λ key w2 _.
            bind_cases Q _ _ w2
              (λ plain w3 _.
                pass_cases Q _ _ _ w3 (λ _. inl refl)
                  λ e. inr (plain, refl, ground (arith, eq_iff (p.sha256 plain) hash)))
              (λ e w3 h. inl (ap err (on_error-eq-err _ _ _ w2 h))))
          (λ e w2 h. inl (ap err (on_error-eq-err _ _ _ w h)))
  where
    Q : Result Bytes × World → Type 0
    Q x = IsVerified p hash x.0

-- A file that is there is read, where the call does not fail.
pub read_file_found :
    (p : Platform) (path raw : Bytes) (w : World)
    → p.fault w.step ≡ none
    → content_at path w ≡ some raw
    → read_file p path w ≡ (ok raw, record w { step = suc w.step })
unfolding read_file ◌>>=◌
read_file_found p path raw w up found = ground arith

-- For a 32-byte address, whatever bytes stand in the file of the object and whatever wrapped key is
-- given: a read whose file call does not fail either ends in the error of a corrupt object, or
-- returns a text whose digest is the address.
pub open_object-IsVerified :
    (p : Platform) (s : Store) (hash dek raw : Bytes) (w : World)
    → length hash ≡ hash_size
    → p.fault w.step ≡ none
    → content_at (object_path s hash) w ≡ some raw
    → IsVerified p hash (open_object p s hash dek w).0
unfolding open_object
open_object-IsVerified p s hash dek raw w size up found =
    pass_cases Q _ _ _ w (λ misfit. absurd (cc (misfit, fits)))
      λ _.
        bind_cases Q _ _ w (λ raw' w' _. verify-IsVerified p s hash dek raw' w')
          (λ e w' failed.
            absurd (cc (failed, read_file_found p (object_path s hash) raw w up found)))
  where
    Q : Result Bytes × World → Type 0
    Q x = IsVerified p hash x.0

    fits : not (length hash == hash_size) ≡ false
    fits = ground (arith, eq_iff (length hash) hash_size)
