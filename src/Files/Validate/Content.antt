-- ===== src/Files/Validate/Content.antt =====
-- internal/files/validate.go, `ValidateContent`: the declared type against the magic bytes.
use securevault.Base.{
  if◌then◌else◌, Bool-cases, ◌==◌, eq_iff, nat_eq, string_eq, Bytes, bytes_eq, eq_cases, any,
  Result, codes, validation, ok, err, ℕ, String, ◌≡◌, refl, ap, inl, inr, Bool, true, false, ◌&&◌,
  ◌||◌, Option, none, some, List, [], ◌∷◌, arith,
}
use securevault.Platform.{Platform}

abbrev pub zip_container_types : List String
zip_container_types =
    "application/zip" ∷ "application/java-archive" ∷ "application/epub+zip"
    ∷ "application/vnd.openxmlformats-officedocument.wordprocessingml.document"
    ∷ "application/vnd.openxmlformats-officedocument.spreadsheetml.sheet"
    ∷ "application/vnd.openxmlformats-officedocument.presentationml.presentation" ∷ []

abbrev pub sniffable_prefixes : List String
sniffable_prefixes = "image/" ∷ "video/" ∷ "audio/" ∷ "text/" ∷ []

abbrev pub sniffable_exact : List String
sniffable_exact = "application/pdf" ∷ "application/zip" ∷ "application/gzip" ∷ []

abbrev pub member : String → List String → Bool
member s l = any (λ t. t == s) l

abbrev begins : Bytes → Bytes → Bool
begins s [] = true
begins [] (_ ∷ _) = false
begins (a ∷ s) (b ∷ t) = a == b && begins s t

-- strings.HasPrefix
abbrev pub has_prefix : String → String → Bool
has_prefix s t = begins (codes s) (codes t)

-- The `switch` on the detected type.
unfoldable pub agree : String → String → Result String
agree declared detected =
    if detected == declared
    then ok declared
    else if detected == "application/zip" && member declared zip_container_types
    then ok declared
    else if detected == "text/plain" && has_prefix declared "text/"
    then ok declared
    else if detected == "application/octet-stream"
    then (if member declared sniffable_exact || any (has_prefix declared) sniffable_prefixes
        then err validation
        else ok declared)
    else err validation

unfoldable pub validate_content : Platform → String → Bytes → Result String
unfolding agree
validate_content p declared head = elim (p.parse_media_type declared) [
  | none ↦ err validation
  | some t ↦
      if t == "" then err validation else elim (p.parse_media_type (p.detect_content_type head)) [
        | none ↦ err validation
        | some detected ↦ agree (p.to_lower t) detected
      ]
]

-- The families of which the sniffer knows the signature: images, video, audio, PDF and gzip.
abbrev pub is_signed : String → Bool
is_signed t =
    has_prefix t "image/"
    || has_prefix t "video/"
    || has_prefix t "audio/"
    || t == "application/pdf"
    || t == "application/gzip"

-- A text with a property is no text without it.
beq-false : (P : String → Bool) (l t : String) → P l ≡ false → P t ≡ true → (l == t) ≡ false
beq-false P l t out inside = elim (eq_cases l t) [
  | inl (_, same) ↦ absurd (cc (ap P same, out, inside))
  | inr (differ, _) ↦ differ
]

member-false :
    (P : String → Bool) (l : List String) (t : String)
    → any P l ≡ false
    → P t ≡ true
    → member t l ≡ false
member-false P [] t out inside = refl
member-false P (x ∷ l) t out inside = ground (arith, beq-false P x t, member-false P l t)

zip-false_of_signed : (t : String) → is_signed t ≡ true → member t zip_container_types ≡ false
zip-false_of_signed t = member-false is_signed zip_container_types t refl

begins-excludes :
    (b c : ℕ) (s u v : Bytes)
    → (b == c) ≡ false
    → begins s (c ∷ v) ≡ true
    → begins s (b ∷ u) ≡ false
begins-excludes b c [] u v ne h = refl
begins-excludes b c (a ∷ s) u v ne h = ground (arith, eq_iff a b, eq_iff a c, eq_iff b c)

-- A text that begins with "text/" begins with none of the signed families.
text-excludes : (t : String) → has_prefix t "text/" ≡ true → is_signed t ≡ false
text-excludes t h = rw (
  begins-excludes b'i' b't' (codes t) (codes "mage/") (codes "ext/") refl h,
  begins-excludes b'v' b't' (codes t) (codes "ideo/") (codes "ext/") refl h,
  begins-excludes b'a' b't' (codes t) (codes "udio/") (codes "ext/") refl h,
  other "application/pdf" refl,
  other "application/gzip" refl,
)
  where
    other : (l : String) → has_prefix l "text/" ≡ false → (t == l) ≡ false
    other l k = elim (eq_cases t l) [
      | inl (_, same) ↦ absurd (cc (ap (λ x. has_prefix x "text/") same, h, k))
      | inr (differ, _) ↦ differ
    ]

text-false_of_signed : (t : String) → is_signed t ≡ true → has_prefix t "text/" ≡ false
text-false_of_signed t inside = elim (Bool-cases (has_prefix t "text/")) [
  | inl h ↦ absurd (cc (text-excludes t h, inside))
  | inr h ↦ h
]

sniffable_of_signed :
    (t : String)
    → is_signed t ≡ true
    → (member t sniffable_exact || any (has_prefix t) sniffable_prefixes) ≡ true
sniffable_of_signed t inside =
    split (has_prefix t "image/") (has_prefix t "video/") (has_prefix t "audio/")
      (has_prefix t "text/") (t == "application/pdf") ("application/pdf" == t)
      (t == "application/gzip") ("application/gzip" == t) ("application/zip" == t)
      (sym-beq t "application/pdf") (sym-beq t "application/gzip") inside
  where
    split :
        (i v a x p p' g g' z : Bool)
        → p ≡ p'
        → g ≡ g'
        → (i || v || a || p || g) ≡ true
        → ((p' || (z || (g' || false))) || (i || (v || (a || (x || false))))) ≡ true
    split i v a x p p' g g' z = ground arith

    sym-beq : (s u : String) → (s == u) ≡ (u == s)
    sym-beq s u = elim (eq_cases s u) [
      | inl (yes_eq, same) ↦ rw (same)
      | inr (no_eq, differ) ↦ ground (arith, eq_iff u s)
    ]

-- The same of the `switch` alone.
agree-eq :
    (declared detected t : String)
    → is_signed declared ≡ true
    → agree declared detected ≡ ok t
    → (declared ≡ detected) × (t ≡ declared)
unfolding agree
agree-eq declared detected t signed h = ground (
  arith,
  zip-false_of_signed declared signed,
  text-false_of_signed declared signed,
  sniffable_of_signed declared signed,
  eq_iff detected declared,
)

-- When an upload is accepted whose declared type is an image, video, audio, PDF or gzip type, the
-- type that is returned is the declared one in lower case, and it is also the type that the magic
-- bytes of the content show.
pub validate_content-detected :
    (p : Platform) (declared d t : String) (head : Bytes)
    → p.parse_media_type declared ≡ some d
    → is_signed (p.to_lower d) ≡ true
    → validate_content p declared head ≡ ok t
    → (p.parse_media_type (p.detect_content_type head) ≡ some t) × (t ≡ p.to_lower d)
unfolding validate_content
validate_content-detected p declared d t head parsed signed h =
    go (p.parse_media_type (p.detect_content_type head)) refl
  where
    go :
        (o : Option String)
        → p.parse_media_type (p.detect_content_type head) ≡ o
        → (p.parse_media_type (p.detect_content_type head) ≡ some t) × (t ≡ p.to_lower d)
    go none e = ground arith
    go (some detected) e = ground (arith, agree-eq (p.to_lower d) detected t signed)
