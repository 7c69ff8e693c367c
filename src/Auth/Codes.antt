-- ===== src/Auth/Codes.antt =====
-- internal/auth/registration.go: the text of an invite code.
use securevault.Text.{trim_space, upper_text}
use securevault.Base.{
  ltb, if◌then◌else◌, ◌==◌, nat_eq, string_eq, Bytes, bytes_eq, keep, ℕ, ◌+◌, ◌-◌, ◌*◌, ◌/◌, ◌%◌,
  code, not, ◌||◌, [], ◌∷◌,
}
use securevault.Platform.{Platform}

abbrev base32_char : ℕ → ℕ
base32_char c = if ltb c 26 then b'A' + c else b'2' + (c - 26)

-- base32.StdEncoding without padding.
unfoldable pub encode_base32 : Bytes → Bytes
encode_base32 [] = []
encode_base32 (a ∷ []) = base32_char (a / 8) ∷ base32_char (a % 8 * 4) ∷ []
encode_base32 (a ∷ b ∷ []) =
    base32_char (a / 8)
    ∷ base32_char (a % 8 * 4 + b / 64)
    ∷ base32_char (b / 2 % 32)
    ∷ base32_char (b % 2 * 16)
    ∷ []
encode_base32 (a ∷ b ∷ c ∷ []) =
    base32_char (a / 8)
    ∷ base32_char (a % 8 * 4 + b / 64)
    ∷ base32_char (b / 2 % 32)
    ∷ base32_char (b % 2 * 16 + c / 16)
    ∷ base32_char (c % 16 * 2)
    ∷ []
encode_base32 (a ∷ b ∷ c ∷ d ∷ []) =
    base32_char (a / 8)
    ∷ base32_char (a % 8 * 4 + b / 64)
    ∷ base32_char (b / 2 % 32)
    ∷ base32_char (b % 2 * 16 + c / 16)
    ∷ base32_char (c % 16 * 2 + d / 128)
    ∷ base32_char (d / 4 % 32)
    ∷ base32_char (d % 4 * 8)
    ∷ []
encode_base32 (a ∷ b ∷ c ∷ d ∷ e ∷ s) =
    base32_char (a / 8)
    ∷ base32_char (a % 8 * 4 + b / 64)
    ∷ base32_char (b / 2 % 32)
    ∷ base32_char (b % 2 * 16 + c / 16)
    ∷ base32_char (c % 16 * 2 + d / 128)
    ∷ base32_char (d / 4 % 32)
    ∷ base32_char (d % 4 * 8 + e / 32)
    ∷ base32_char (e % 32)
    ∷ encode_base32 s

unfoldable pub normalize_invite_code : Platform → Bytes → Bytes
unfolding upper_text trim_space
normalize_invite_code p code =
    keep (λ b. not (b == b' ' || b == b'-')) (upper_text p (trim_space code))
