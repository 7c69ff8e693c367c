-- ===== src/Auth/Base64.antt =====
-- encoding/base64 without padding: RawStdEncoding and RawURLEncoding.
pub mod RoundTrip
use securevault.Base.{
  ltb, leb, if◌then◌else◌, ◌==◌, nat_eq, string_eq, Bytes, bytes_eq, keep, any, Fault, ok, ℕ, ◌+◌,
  ◌-◌, ◌*◌, ◌/◌, ◌%◌, String, code, ap, Bool, not, ◌&&◌, ◌||◌, Option, none, some, [], ◌∷◌, map,
}

-- The two alphabets differ in their last two characters.
abbrev sextet_char : ℕ → ℕ → ℕ → ℕ
sextet_char c62 c63 c =
    if ltb c 26
    then b'A' + c
    else if ltb c 52
    then b'a' + (c - 26)
    else if ltb c 62
    then b'0' + (c - 52)
    else if c == 62
    then c62
    else c63

abbrev pub std_char : ℕ → ℕ
std_char = sextet_char b'+' b'/'

abbrev pub url_char : ℕ → ℕ
url_char = sextet_char b'-' b'_'

-- EncodeToString by an alphabet.
unfoldable pub encode_by : (ℕ → ℕ) → Bytes → Bytes
encode_by char [] = []
encode_by char (a ∷ []) = char (a / 4) ∷ char (a % 4 * 16) ∷ []
encode_by char (a ∷ b ∷ []) = char (a / 4) ∷ char (a % 4 * 16 + b / 16) ∷ char (b % 16 * 4) ∷ []
encode_by char (a ∷ b ∷ c ∷ s) =
    char (a / 4)
    ∷ char (a % 4 * 16 + b / 16)
    ∷ char (b % 16 * 4 + c / 64)
    ∷ char (c % 64)
    ∷ encode_by char s

-- The value of a character of the standard alphabet; 64 is no value.
abbrev pub std_value : ℕ → ℕ
std_value c =
    if leb b'A' c && leb c b'Z'
    then c - b'A'
    else if leb b'a' c && leb c b'z'
    then c - b'a' + 26
    else if leb b'0' c && leb c b'9'
    then c - b'0' + 52
    else if c == b'+'
    then 62
    else if c == b'/'
    then 63
    else 64

abbrev is_newline : ℕ → Bool
is_newline c = c == 10 || c == 13

-- The bytes of the values, four to three; the bits that are left over are not looked at.
unfoldable pub join_sextets : Bytes → Option Bytes
join_sextets [] = some []
join_sextets (a ∷ []) = none
join_sextets (a ∷ b ∷ []) = some ((a * 4 + b / 16) ∷ [])
join_sextets (a ∷ b ∷ c ∷ []) = some ((a * 4 + b / 16) ∷ (b % 16 * 16 + c / 4) ∷ [])
join_sextets (a ∷ b ∷ c ∷ d ∷ s) = elim (join_sextets s) [
  | none ↦ none
  | some t ↦ some ((a * 4 + b / 16) ∷ (b % 16 * 16 + c / 4) ∷ (c % 4 * 64 + d) ∷ t)
]

-- DecodeString of RawStdEncoding: line ends are passed over, and any other character must be of the
-- alphabet.
unfoldable pub decode_std : Bytes → Option Bytes
unfolding join_sextets
decode_std s =
    let values = map std_value (keep (λ c. not (is_newline c)) s) in
    if any (leb 64) values then none else join_sextets values
