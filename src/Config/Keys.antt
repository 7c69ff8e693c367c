-- ===== src/Config/Keys.antt =====
-- The master key as `make genkey` writes it.
use securevault.Config.{master_key_size, Env, load_key}
use securevault.Text.Numbers.{decode_hex}
use securevault.Storage.Store.{hex, hex_digit}
use securevault.Base.Chain.{◌>>=◌}
use securevault.Text.Numbers.{hex_value}
use securevault.Base.{
  nat_eq, string_eq, Bytes, IsByte, bytes_beq, bytes_eq, length, All, ok, ℕ, ◌/◌, ◌%◌, ◌<◌, ◌≡◌,
  refl, ap, some, [], ◌∷◌, arith,
}

hex_value-hex_digit : (d : ℕ) → d < 16 → hex_value (hex_digit d) ≡ some d
unfolding hex_digit
hex_value-hex_digit d h = ground arith

-- What was written in hex is read back.
decode_hex-hex : (s : Bytes) → All IsByte s → decode_hex (hex s) ≡ some s
unfolding decode_hex hex
decode_hex-hex [] h = refl
decode_hex-hex (b ∷ s) (byte, rest) =
    rw
      (
        hex_value-hex_digit (b / 16) (omega arith),
        hex_value-hex_digit (b % 16) (omega arith),
        decode_hex-hex s rest,
      )
      (ap (λ c. some (c ∷ s)) (omega arith))

-- A key of 32 bytes that stands in the environment in hex is the key that is loaded.
pub load_key-hex :
    (env : Env) (key : Bytes)
    → All IsByte key
    → length key ≡ master_key_size
    → env "SECUREVAULT_MASTER_KEY" ≡ hex key
    → load_key env ≡ ok key
unfolding load_key ◌>>=◌ hex bytes_beq
load_key-hex env [] bytes size written = absurd (cc size)
load_key-hex env (b ∷ s) bytes size written = rw (written, decode_hex-hex (b ∷ s) bytes, size) refl
