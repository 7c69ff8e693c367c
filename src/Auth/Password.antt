-- ===== src/Auth/Password.antt =====
-- internal/auth/password.go: Argon2id hashes in the PHC string format. EqualizeTiming has no effect
-- but the time that it takes.
pub mod Verify
pub mod Steady
use securevault.Storage.Crypto.{random_bytes}
use securevault.Auth.Base64.{std_char, decode_std, encode_by}
use securevault.Text.{split, runes_after}
use securevault.Base.{
  ltb, if◌then◌else◌, ◌==◌, nat_eq, string_eq, Bytes, bytes_eq, length, Fault, Result, codes,
  internal, ok, err, ℕ, ◌+◌, ◌-◌, ◌%◌, code, Bool, false, not, ◌&&◌, ◌||◌, Option, none, some, List,
  [], ◌∷◌, ◌++◌,
}
use securevault.Platform.{Platform}
use securevault.Effect.{pure, M, ◌>>=◌}
use securevault.Auth.Scan.{scan_version, scan_parameters}

abbrev pub argon_memory_kib : ℕ
argon_memory_kib = 65536

abbrev pub argon_time : ℕ
argon_time = 3

abbrev pub argon_threads : ℕ
argon_threads = 4

abbrev pub argon_salt_len : ℕ
argon_salt_len = 16

abbrev pub argon_key_len : ℕ
argon_key_len = 32

-- argon2.Version, 0x13
abbrev argon_version : ℕ
argon_version = 19

-- What stands before the salt, with the numbers printed.
abbrev phc_prefix : Bytes
phc_prefix = codes "$argon2id$v=19$m=65536,t=3,p=4$"

unfoldable pub print_phc : Bytes → Bytes → Bytes
print_phc salt key = phc_prefix ++ (encode_by std_char salt ++ (b'$' ∷ encode_by std_char key))

pub record PasswordHash : Type 0 where
  pub salt : Bytes
  pub key : Bytes
  pub memory : ℕ
  pub time : ℕ
  pub threads : ℕ

abbrev version_ok : Option (Bool × ℕ) → Bool
version_ok none = false
version_ok (some (negative, v)) = not negative && v == argon_version

abbrev parameters_ok : ℕ × ℕ × ℕ → Bool
parameters_ok (m, t, q) = not (m == 0 || t == 0 || q == 0 || ltb 255 q)

-- The last two parts, under the parameters that were read.
abbrev join_parts : ℕ × ℕ × ℕ → Option Bytes → Option Bytes → Option PasswordHash
join_parts (m, t, q) none key = none
join_parts (m, t, q) (some salt) none = none
join_parts (m, t, q) (some salt) (some key) =
    if length key == 0
    then none
    else some (record { salt = salt; key = key; memory = m; time = t; threads = q })

unfoldable pub parse_parts : List Bytes → Option PasswordHash
parse_parts (first ∷ id ∷ version ∷ parameters ∷ salt ∷ key ∷ []) =
    if not (first == []) || not (id == codes "argon2id")
    then none
    else if not (version_ok (scan_version (runes_after 0 version)))
    then none
    else elim (scan_parameters (runes_after 0 parameters)) [
      | none ↦ none
      | some ns ↦
          if parameters_ok ns then join_parts ns (decode_std salt) (decode_std key) else none
    ]
parse_parts _ = none

unfoldable pub parse_phc : Bytes → Option PasswordHash
unfolding parse_parts
parse_phc encoded = parse_parts (split b'$' encoded)

module _ (p : Platform) where
  unfoldable pub hash_password : Bytes → M Bytes
  unfolding print_phc
  hash_password password = do
    salt ← random_bytes p argon_salt_len
    let key = p.argon2_id_key password salt argon_time argon_memory_kib argon_threads argon_key_len
    pure (print_phc salt key)

  unfoldable pub verify_password : Bytes → Bytes → Result Bool
  verify_password password encoded = elim (parse_phc encoded) [
    | none ↦ err internal
    | some h ↦ ok (
        p.argon2_id_key password h.salt h.time h.memory h.threads (length h.key % 4294967296)
        == h.key)
  ]
