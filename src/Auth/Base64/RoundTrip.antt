-- ===== src/Auth/Base64/RoundTrip.antt =====
-- What RawStdEncoding encodes, it decodes.
use securevault.Auth.Base64.{decode_std, is_newline, join_sextets, std_char, std_value, encode_by}
use securevault.Base.{
  leb, ◌==◌, nat_eq, string_eq, Bytes, IsByte, bytes_eq, keep, any, All, ℕ, ◌<◌, ◌≡◌, refl, false,
  not, some, [], ◌∷◌, map, arith,
}

abbrev IsSextet : ℕ → Type 0
IsSextet c = c < 64

-- The values that a text is encoded to, before they become characters.
abbrev sextets : Bytes → Bytes
sextets = encode_by (λ c. c)

std_value-std_char : (c : ℕ) → c < 64 → std_value (std_char c) ≡ c
std_value-std_char c h = ground arith

std_char_plain : (c : ℕ) → (is_newline (std_char c) ≡ false) × ((std_char c == b'$') ≡ false)
std_char_plain c = ground arith

std_char-lt : (c : ℕ) → std_char c < 128
std_char-lt c = ground arith

join_sextets-encode : (s : Bytes) → All IsByte s → join_sextets (sextets s) ≡ some s
unfolding join_sextets encode_by
join_sextets-encode [] h = refl
join_sextets-encode (a ∷ []) h = ground arith
join_sextets-encode (a ∷ b ∷ []) h = ground arith
join_sextets-encode (a ∷ b ∷ c ∷ s) h = rw (join_sextets-encode s h.1.1.1) (ground arith)

encode_by-map : (char : ℕ → ℕ) (s : Bytes) → encode_by char s ≡ map char (sextets s)
unfolding encode_by
encode_by-map char [] = refl
encode_by-map char (a ∷ []) = refl
encode_by-map char (a ∷ b ∷ []) = refl
encode_by-map char (a ∷ b ∷ c ∷ s) = rw (encode_by-map char s)

sextets-IsSextet : (s : Bytes) → All IsByte s → All IsSextet (sextets s)
unfolding encode_by
sextets-IsSextet [] h = tt
sextets-IsSextet (a ∷ []) h = (omega arith, (omega arith, tt))
sextets-IsSextet (a ∷ b ∷ []) h = (omega arith, (omega arith, (omega arith, tt)))
sextets-IsSextet (a ∷ b ∷ c ∷ s) h =
    (omega arith, (omega arith, (omega arith, (omega arith, sextets-IsSextet s h.1.1.1))))

values_back :
    (cs : Bytes)
    → All IsSextet cs
    → map std_value (keep (λ c. not (is_newline c)) (map std_char cs)) ≡ cs
values_back [] h = refl
values_back (c ∷ cs) h =
    rw ((std_char_plain c).0) (rw (std_value-std_char c h.0, values_back cs h.1))

no_invalid : (cs : Bytes) → All IsSextet cs → any (leb 64) cs ≡ false
no_invalid [] h = refl
no_invalid (c ∷ cs) h = ground (arith, no_invalid cs h.1)

-- Bytes are read back from their unpadded base64.
pub decode_std-encode_by : (s : Bytes) → All IsByte s → decode_std (encode_by std_char s) ≡ some s
unfolding decode_std
decode_std-encode_by s h =
    let small = sextets-IsSextet s h in
    rw (encode_by-map std_char s, values_back (sextets s) small, no_invalid (sextets s) small)
      (join_sextets-encode s h)

no_dollar_map : (cs : Bytes) → any (λ c. c == b'$') (map std_char cs) ≡ false
no_dollar_map [] = refl
no_dollar_map (c ∷ cs) = rw ((std_char_plain c).1) (no_dollar_map cs)

-- No `$` is among the characters that are written.
pub encode_by-no_dollar : (s : Bytes) → any (λ c. c == b'$') (encode_by std_char s) ≡ false
encode_by-no_dollar s = rw (encode_by-map std_char s) (no_dollar_map (sextets s))
