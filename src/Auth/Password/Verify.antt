-- ===== src/Auth/Password/Verify.antt =====
-- A password is verified against its own hash.
use securevault.Storage.Staging.{random_bytes_ok}
use securevault.Effect.Bind.{bind_ok}
use securevault.Effect.{World, pure}
use securevault.Auth.Base64.{std_char, encode_by}
use securevault.Auth.Scan.{scan_parameters, scan_version}
use securevault.Platform.Laws.{IsPasswordLawful}
use securevault.Auth.Base64.RoundTrip.{decode_std-encode_by, encode_by-no_dollar}
use securevault.Text.{runes_after, decode_rune, split}
use securevault.Auth.Password.{argon_salt_len, verify_password, hash_password, parse_phc, print_phc}
use securevault.Base.{
  ◌==◌, eq_refl, nat_eq, string_eq, Bytes, IsByte, bytes_beq, bytes_eq, length, any, All, codes, ok,
  ◌≡◌, refl, true, false, some, [], ◌∷◌, ◌++◌, arith,
}
use securevault.Platform.{Platform}

split-append :
    (s t : Bytes) → any (λ c. c == b'$') s ≡ false → split b'$' (s ++ (b'$' ∷ t)) ≡ s ∷ split b'$' t
unfolding split
split-append [] t h = refl
split-append (b ∷ s) t h = ground (arith, split-append s t)

split-none : (s : Bytes) → any (λ c. c == b'$') s ≡ false → split b'$' s ≡ s ∷ []
unfolding split
split-none [] h = refl
split-none (b ∷ s) h = ground (arith, split-none s)

split-print_phc :
    (salt key : Bytes)
    → split b'$' (print_phc salt key)
      ≡ []
        ∷ codes "argon2id"
        ∷ codes "v=19"
        ∷ codes "m=65536,t=3,p=4"
        ∷ encode_by std_char salt
        ∷ encode_by std_char key
        ∷ []
unfolding print_phc split
split-print_phc salt key = rw (
  split-append (encode_by std_char salt) (encode_by std_char key) (encode_by-no_dollar salt),
  split-none (encode_by std_char key) (encode_by-no_dollar key),
)

version_19 : scan_version (runes_after 0 (codes "v=19")) ≡ some (false, 19)
unfolding scan_version runes_after decode_rune
version_19 = refl

parameters_now : scan_parameters (runes_after 0 (codes "m=65536,t=3,p=4")) ≡ some (65536, 3, 4)
unfolding scan_parameters runes_after decode_rune
parameters_now = refl

-- A salt and a key that is not empty, both of bytes, are read back from the text that is stored for
-- them, with the parameters of the program.
pub parse_phc-print_phc :
    (salt key : Bytes)
    → All IsByte salt
    → All IsByte key
    → (length key == 0) ≡ false
    → parse_phc (print_phc salt key)
      ≡ some (record { salt = salt; key = key; memory = 65536; time = 3; threads = 4 })
unfolding parse_phc bytes_beq
parse_phc-print_phc salt key hs hk full =
    rw (split-print_phc salt key, version_19, parameters_now)
      (rw (decode_std-encode_by salt hs, decode_std-encode_by key hk) (rw full))

module _ (p : Platform) (law : IsPasswordLawful p) where
  -- Where the random source and Argon2id are lawful, a password verifies against the text that
  -- hashing it has returned.
  pub verify_password-hash_password :
      (password encoded : Bytes) (w w1 : World)
      → hash_password p password w ≡ (ok encoded, w1)
      → verify_password p password encoded ≡ ok true
  unfolding hash_password verify_password pure
  verify_password-hash_password password encoded w w1 h = bind_ok _ _ w h λ salt w2 got h1.
      let salt_eq = random_bytes_ok p argon_salt_len w got in
      let key = p.argon2_id_key password salt 3 65536 4 32 in
      let size = law.length-key password salt 3 65536 4 32 in
      let back =
        parse_phc-print_phc salt key (rw (salt_eq) (law.bytes-random w.step 16))
          (law.bytes-key password salt 3 65536 4 32) (rw size) in
      let encoded_eq : print_phc salt key ≡ encoded = cc h1 in
      rw (← encoded_eq) (verified salt key back size refl)
    where
      verified :
          (salt key : Bytes)
          → parse_phc (print_phc salt key)
            ≡ some (record { salt = salt; key = key; memory = 65536; time = 3; threads = 4 })
          → length key ≡ 32
          → p.argon2_id_key password salt 3 65536 4 32 ≡ key
          → verify_password p password (print_phc salt key) ≡ ok true
      verified salt key back size same =
          rw (back, verify_password) (rw (size, same) (rw (eq_refl key)))
