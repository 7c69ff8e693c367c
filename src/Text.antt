-- ===== src/Text.antt =====
-- Texts as Go's standard library reads them: UTF-8, white space, letters of ASCII.
pub mod Numbers
use securevault.Platform.{Platform}
use securevault.Base.{
  ltb, leb, if◌then◌else◌, ◌==◌, nat_eq, string_eq, Bytes, bytes_eq, take, drop, keep, any, Fault,
  err, ℕ, zero, suc, ◌+◌, ◌-◌, ◌*◌, ◌/◌, ◌%◌, code, ap, Bool, not, ◌&&◌, ◌||◌, List, [], ◌∷◌, ◌++◌,
  map,
}

-- UTF-8 as Go's `range` over a string and utf8.DecodeRune read it: an invalid byte is U+FFFD, alone.
abbrev pub rune_error : ℕ
rune_error = 65533

abbrev in_range : ℕ → ℕ → ℕ → Bool
in_range lo hi b = leb lo b && leb b hi

abbrev continuation : ℕ → Bool
continuation b = in_range 128 191 b

-- The range of the second byte, which keeps out overlong forms, surrogates and runes over U+10FFFF.
abbrev second_byte : ℕ → ℕ → Bool
second_byte b0 b1 =
    if b0 == 224
    then in_range 160 191 b1
    else if b0 == 237
    then in_range 128 159 b1
    else if b0 == 240
    then in_range 144 191 b1
    else if b0 == 244
    then in_range 128 143 b1
    else continuation b1

abbrev decode_two : ℕ → Bytes → ℕ × ℕ
decode_two b0 [] = (rune_error, 0)
decode_two b0 (b1 ∷ _) =
    if continuation b1 then ((b0 - 192) * 64 + (b1 - 128), 1) else (rune_error, 0)

abbrev decode_three : ℕ → Bytes → ℕ × ℕ
decode_three b0 (b1 ∷ b2 ∷ _) =
    if second_byte b0 b1 && continuation b2
    then ((b0 - 224) * 4096 + (b1 - 128) * 64 + (b2 - 128), 2)
    else (rune_error, 0)
decode_three b0 _ = (rune_error, 0)

abbrev decode_four : ℕ → Bytes → ℕ × ℕ
decode_four b0 (b1 ∷ b2 ∷ b3 ∷ _) =
    if second_byte b0 b1 && (continuation b2 && continuation b3)
    then ((b0 - 240) * 262144 + (b1 - 128) * 4096 + (b2 - 128) * 64 + (b3 - 128), 3)
    else (rune_error, 0)
decode_four b0 _ = (rune_error, 0)

-- The rune at a byte, and the number of the further bytes that it takes.
unfoldable pub decode_rune : ℕ → Bytes → ℕ × ℕ
decode_rune b0 s =
    if ltb b0 128
    then (b0, 0)
    else if in_range 194 223 b0
    then decode_two b0 s
    else if in_range 224 239 b0
    then decode_three b0 s
    else if in_range 240 244 b0
    then decode_four b0 s
    else (rune_error, 0)

-- The runes of a text, of which the first bytes are to be skipped.
unfoldable pub runes_after : ℕ → Bytes → List ℕ
runes_after _ [] = []
runes_after (suc skip) (b ∷ s) = runes_after skip s
runes_after zero (b ∷ s) = let (r, more) = decode_rune b s in r ∷ runes_after more s

unfoldable pub encode_rune : ℕ → Bytes
encode_rune r =
    if ltb r 128
    then r ∷ []
    else if ltb r 2048
    then (192 + r / 64) ∷ (128 + r % 64) ∷ []
    else if ltb r 65536
    then (224 + r / 4096) ∷ (128 + r / 64 % 64) ∷ (128 + r % 64) ∷ []
    else (240 + r / 262144) ∷ (128 + r / 4096 % 64) ∷ (128 + r / 64 % 64) ∷ (128 + r % 64) ∷ []

unfoldable pub encode : List ℕ → Bytes
encode [] = []
encode (r ∷ rs) = encode_rune r ++ encode rs

-- unicode.IsSpace
abbrev pub is_space : ℕ → Bool
is_space r =
    in_range 9 13 r
    || r == 32
    || r == 133
    || r == 160
    || r == 5760
    || in_range 8192 8202 r
    || in_range 8232 8233 r
    || r == 8239
    || r == 8287
    || r == 12288

-- The two halves of strings.TrimFunc, on the runes or on what carries them.
unfoldable pub trim_left : {A : Type 0} → (A → Bool) → List A → List A
trim_left drops [] = []
trim_left drops (r ∷ rs) = let rest = trim_left drops rs in if drops r then rest else r ∷ rs

-- The last step of `trim_right`, by what is left of the rest.
abbrev pub keep_last : {A : Type 0} → (A → Bool) → A → List A → List A
keep_last drops r [] = if drops r then [] else r ∷ []
keep_last drops r (x ∷ xs) = r ∷ x ∷ xs

unfoldable pub trim_right : {A : Type 0} → (A → Bool) → List A → List A
trim_right drops [] = []
trim_right drops (r ∷ rs) = keep_last drops r (trim_right drops rs)

-- The runes of a text, each with the bytes that it was read from.
unfoldable pub chunks_after : ℕ → Bytes → List (ℕ × Bytes)
chunks_after _ [] = []
chunks_after (suc skip) (b ∷ s) = chunks_after skip s
chunks_after zero (b ∷ s) =
    let (r, more) = decode_rune b s in (r, b ∷ take more s) ∷ chunks_after more s

abbrev pub join_chunks : List (ℕ × Bytes) → Bytes
join_chunks [] = []
join_chunks ((r, s) ∷ cs) = s ++ join_chunks cs

-- strings.TrimSpace, which leaves the bytes between as they are.
unfoldable pub trim_space : Bytes → Bytes
unfolding chunks_after trim_left trim_right
trim_space s =
    join_chunks (trim_right (λ c. is_space c.0) (trim_left (λ c. is_space c.0) (chunks_after 0 s)))

abbrev pub first_put : ℕ → List Bytes → List Bytes
first_put b [] = (b ∷ []) ∷ []
first_put b (s ∷ ss) = (b ∷ s) ∷ ss

-- strings.Split by one byte.
unfoldable pub split : ℕ → Bytes → List Bytes
split sep [] = [] ∷ []
split sep (b ∷ s) = let rest = split sep s in if b == sep then [] ∷ rest else first_put b rest

-- strings.ToLower and strings.ToUpper of one ASCII letter.
abbrev pub lower_byte : ℕ → ℕ
lower_byte b = if leb b'A' b && leb b b'Z' then b + 32 else b

abbrev pub upper_byte : ℕ → ℕ
upper_byte b = if leb b'a' b && leb b b'z' then b - 32 else b

abbrev pub is_ascii : Bytes → Bool
is_ascii s = not (any (leb 128) s)

-- strings.ToLower and strings.ToUpper: ASCII texts byte by byte.
unfoldable pub lower_text : Platform → Bytes → Bytes
lower_text p s = if is_ascii s then map lower_byte s else p.to_lower_wide s

unfoldable pub upper_text : Platform → Bytes → Bytes
upper_text p s = if is_ascii s then map upper_byte s else p.to_upper_wide s
