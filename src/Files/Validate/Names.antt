-- ===== src/Files/Validate/Names.antt =====
-- The display names that `sanitize_filename` returns.
use securevault.Text.{
  keep_last, encode_rune, decode_rune, is_space, runes_after, encode, trim_right, trim_left,
}
use securevault.Files.Validate.{
  clean, sanitize_filename, only_dots, is_shown, is_separator, last_element,
}
use securevault.Base.{
  ltb, if◌then◌else◌, Bool-cases, eq_iff, nat_eq, string_eq, Bytes, bytes_eq, length, take, keep,
  any, length-append, length-take, All, codes, ℕ, zero, suc, ◌+◌, ◌/◌, ◌%◌, ◌≤◌, ◌≡◌, refl, ◌≢◌,
  inl, inr, Bool, true, false, List, [], ◌∷◌, ◌++◌, arith,
}
use securevault.Platform.{Platform}

-- A byte that is no separator and no control character.
abbrev pub IsSafe : ℕ → Type 0
IsSafe b = (32 ≤ b) × (b ≢ 127) × (b ≢ b'/') × (b ≢ b'\\')

-- A rune that is kept, of which an ASCII one is no separator.
abbrev IsKept : ℕ → Type 0
IsKept r = (32 ≤ r) × (r ≢ 127) × (r ≢ b'/') × (r ≢ b'\\')

abbrev NoSeparator : ℕ → Type 0
NoSeparator b = (b ≢ b'/') × (b ≢ b'\\')

if-elim :
    {A : Type 0} (Q : A → Type 0) (b : Bool) (x y : A)
    → (b ≡ true → Q x)
    → (b ≡ false → Q y)
    → Q (if b then x else y)
if-elim Q true x y h k = h refl
if-elim Q false x y h k = k refl

any-false : (s : Bytes) → any is_separator s ≡ false → All NoSeparator s
any-false [] h = tt
any-false (b ∷ s) h = ground (arith, eq_iff b b'/', eq_iff b b'\\', any-false s)

last_element-NoSeparator : (s : Bytes) → All NoSeparator (last_element s)
unfolding last_element
last_element-NoSeparator [] = tt
last_element-NoSeparator (b ∷ s) =
    if-elim (All NoSeparator) (any is_separator s) (last_element s)
      (if is_separator b then s else b ∷ s) (λ _. last_element-NoSeparator s)
      λ clear.
        if-elim (All NoSeparator) (is_separator b) s (b ∷ s) (λ _. any-false s clear)
          λ plain. (ground (arith, eq_iff b b'/', eq_iff b b'\\'), any-false s clear)

-- A rune of more than one byte, and the rune of an invalid byte, is no ASCII character.
decode_rune-wide : (b : ℕ) (s : Bytes) → ltb b 128 ≡ false → 128 ≤ (decode_rune b s).0
unfolding decode_rune
decode_rune-wide b [] h = ground arith
decode_rune-wide b (b1 ∷ []) h = ground arith
decode_rune-wide b (b1 ∷ b2 ∷ []) h = ground arith
decode_rune-wide b (b1 ∷ b2 ∷ b3 ∷ s) h = ground arith

decode_rune-NoSeparator : (b : ℕ) (s : Bytes) → NoSeparator b → NoSeparator (decode_rune b s).0
unfolding decode_rune
decode_rune-NoSeparator b s h = elim (Bool-cases (ltb b 128)) [
  | inl ascii ↦ ground arith
  | inr wide ↦ ground (arith, decode_rune-wide b s wide)
]

runes-NoSeparator : (n : ℕ) (s : Bytes) → All NoSeparator s → All NoSeparator (runes_after n s)
unfolding runes_after
runes-NoSeparator n [] h = tt
runes-NoSeparator (suc n) (b ∷ s) h = runes-NoSeparator n s h.1
runes-NoSeparator zero (b ∷ s) h =
    (decode_rune-NoSeparator b s h.0, runes-NoSeparator (decode_rune b s).1 s h.1)

keep-IsKept : (p : Platform) (rs : List ℕ) → All NoSeparator rs → All IsKept (keep (is_shown p) rs)
keep-IsKept p [] h = tt
keep-IsKept p (r ∷ rs) h =
    if-elim (All IsKept) (is_shown p r) (r ∷ keep (is_shown p) rs) (keep (is_shown p) rs)
      (λ shown. (ground (arith, eq_iff r 127), keep-IsKept p rs h.1)) λ _. keep-IsKept p rs h.1

trim_left-All : (P : ℕ → Type 0) (rs : List ℕ) → All P rs → All P (trim_left is_space rs)
unfolding trim_left
trim_left-All P [] h = tt
trim_left-All P (r ∷ rs) h =
    if-elim (All P) (is_space r) (trim_left is_space rs) (r ∷ rs) (λ _. trim_left-All P rs h.1)
      λ _. h

keep_last-All :
    (P : ℕ → Type 0) (r : ℕ) (rs : List ℕ) → P r → All P rs → All P (keep_last is_space r rs)
keep_last-All P r [] h k = if-elim (All P) (is_space r) [] (r ∷ []) (λ _. tt) λ _. (h, tt)
keep_last-All P r (x ∷ xs) h k = (h, k)

trim_right-All : (P : ℕ → Type 0) (rs : List ℕ) → All P rs → All P (trim_right is_space rs)
unfolding trim_right
trim_right-All P [] h = tt
trim_right-All P (r ∷ rs) h =
    keep_last-All P r (trim_right is_space rs) h.0 (trim_right-All P rs h.1)

encode_rune-IsSafe : (r : ℕ) → IsKept r → All IsSafe (encode_rune r)
unfolding encode_rune
encode_rune-IsSafe r h = go (ltb r 128) (ltb r 2048) (ltb r 65536)
  where
    go :
        (a b c : Bool)
        → All IsSafe (
            if a
            then r ∷ []
            else if b
            then (192 + r / 64) ∷ (128 + r % 64) ∷ []
            else if c
            then (224 + r / 4096) ∷ (128 + r / 64 % 64) ∷ (128 + r % 64) ∷ []
            else (240 + r / 262144)
              ∷ (128 + r / 4096 % 64)
              ∷ (128 + r / 64 % 64)
              ∷ (128 + r % 64)
              ∷ [])
    go true b c = (h, tt)
    go false true c = (ground arith, (ground arith, tt))
    go false false true = (ground arith, (ground arith, (ground arith, tt)))
    go false false false = (ground arith, (ground arith, (ground arith, (ground arith, tt))))

All-append : (P : ℕ → Type 0) (s t : Bytes) → All P s → All P t → All P (s ++ t)
All-append P [] t h k = k
All-append P (b ∷ s) t h k = (h.0, All-append P s t h.1 k)

All-take : (P : ℕ → Type 0) (n : ℕ) (s : Bytes) → All P s → All P (take n s)
All-take P zero s h = tt
All-take P (suc n) [] h = tt
All-take P (suc n) (b ∷ s) h = (h.0, All-take P n s h.1)

encode-IsSafe : (rs : List ℕ) → All IsKept rs → All IsSafe (encode rs)
unfolding encode
encode-IsSafe [] h = tt
encode-IsSafe (r ∷ rs) h =
    All-append IsSafe (encode_rune r) (encode rs) (encode_rune-IsSafe r h.0) (encode-IsSafe rs h.1)

length-encode_rune : (r : ℕ) → 1 ≤ length (encode_rune r)
unfolding encode_rune
length-encode_rune r = ground arith

-- The text that stands for an empty name.
unnamed-IsSafe : All IsSafe (codes "unnamed")
unnamed-IsSafe = ground arith

dotted : (rs : List ℕ) → only_dots rs ≡ false → 1 ≤ length (encode rs)
unfolding encode
dotted [] h = absurd (cc h)
dotted (r ∷ rs) h = omega (arith, length-append (encode_rune r) (encode rs), length-encode_rune r)

module _ (p : Platform) where
  clean-IsKept : (name : Bytes) → All IsKept (clean p name)
  clean-IsKept name = trim_right-All IsKept _ (
      trim_left-All IsKept _
        (keep-IsKept p _ (runes-NoSeparator 0 _ (last_element-NoSeparator name))))

  -- Whatever bytes the client sends as a file name, the name that is stored has at least 1 and at
  -- most 255 bytes, and none of them is a path separator, a control character or DEL.
  pub sanitize_filename-IsSafe :
      (name : Bytes)
      → All IsSafe (sanitize_filename p name)
        × (1 ≤ length (sanitize_filename p name))
        × (length (sanitize_filename p name) ≤ 255)
  unfolding sanitize_filename
  sanitize_filename-IsSafe name = elim (Bool-cases (only_dots (clean p name))) [
    | inl dots ↦ rw (dots) (unnamed-IsSafe, omega arith, omega arith)
    | inr some_left ↦ rw (some_left) (
      All-take IsSafe 255 _ (encode-IsSafe _ (clean-IsKept name)),
      omega (arith, length-take 255 (encode (clean p name)), dotted (clean p name) some_left),
      omega (arith, length-take 255 (encode (clean p name))),
    )
  ]
