-- ===== src/Platform/Sample.antt =====
-- A platform that meets the hypotheses, on which the theorems are run: a checksum for SHA-256, and a
-- cipher that marks the text with its data.
use securevault.Base.{
  leb, if◌then◌else◌, Bool-cases, ◌==◌, eq_iff, eq_refl, nat_eq, string_eq, Bytes, IsByte, bytes_eq,
  length, take, replicate, length-append, length-take, All, codes, ℕ, zero, suc, ◌+◌, ◌%◌, String,
  ◌≡◌, refl, ap, ◌∙◌, inl, inr, true, Option, none, some, [], ◌∷◌, ◌++◌, arith,
}
use securevault.Platform.{Platform}
use securevault.Platform.Laws.{IsDigestLawful, IsPasswordLawful, IsCryptoLawful}

abbrev low : Bytes → Bytes
low [] = []
low (b ∷ text) = b % 256 ∷ low text

-- The text that the runs upload has a digest of its own.
abbrev mark : Bytes → ℕ
mark text = if text == codes "hello" then 1 else 0

-- Behind the mark the first of the bytes, filled up with zeros.
abbrev digest : Bytes → Bytes
digest text = mark text ∷ take 31 (low text ++ replicate 31 0)

abbrev strip : Bytes → Bytes → Option Bytes
strip [] text = some text
strip (a ∷ aad) [] = none
strip (a ∷ aad) (b ∷ text) = if a == b then strip aad text else none

-- The first byte of a PNG file, or a text.
abbrev sniff : Bytes → String
sniff [] = "text/plain"
sniff (b ∷ s) = if b == 137 then "image/png" else "text/plain"

-- The length of the password, kept a byte, filled up to the key's length: a key of bytes.
abbrev key_of : ℕ → Bytes → Bytes
key_of n password = replicate n (length password % 256)

abbrev pub sample : Platform
sample = record {
  fault = λ t. none;
  now = λ t. 1000 + t;
  uuid = λ t. elim t [ zero ↦ "id0" | suc _ ↦ "id1" ];
  random = λ t n. replicate n (t % 256);
  temp_name = λ t. t ∷ [];
  sha256 = digest;
  gcm_seal = λ key nonce text aad. aad ++ text;
  gcm_open = λ key nonce text aad. strip aad text;
  is_print = λ c. leb 32 c;
  parse_media_type = λ s. some s;
  split_host_port = λ s. none;
  identity_gap = λ t. 0;
  detect_content_type = λ head. sniff head;
  to_lower = λ s. s;
  collates = λ s t. true;
  to_lower_wide = λ s. s;
  to_upper_wide = λ s. s;
  format_attachment = λ name. codes "attachment; filename=" ++ name;
  format_int = λ n. n % 256 ∷ [];
  argon2_id_key = λ password salt time memory threads n. key_of n password;
}

length-digest : (text : Bytes) → length (digest text) ≡ 32
length-digest text =
    omega (
      arith,
      length-take 31 (low text ++ replicate 31 0),
      length-append (low text) (replicate 31 0),
    )

length-replicate : (n x : ℕ) → length (replicate n x) ≡ n
length-replicate zero x = refl
length-replicate (suc n) x = ap suc (length-replicate n x)

strip-append : (aad text : Bytes) → strip aad (aad ++ text) ≡ some text
strip-append [] text = refl
strip-append (a ∷ aad) text = rw (eq_refl a) (strip-append aad text)

pub sample-IsCryptoLawful : IsCryptoLawful sample
sample-IsCryptoLawful = record {
  length-sha256 = length-digest;
  length-random = λ t n. length-replicate n (t % 256);
  open-seal = λ key nonce text aad. strip-append aad text;
}

All-replicate : (n x : ℕ) → IsByte x → All IsByte (replicate n x)
All-replicate zero x h = tt
All-replicate (suc n) x h = (h, All-replicate n x h)

pub sample-IsPasswordLawful : IsPasswordLawful sample
sample-IsPasswordLawful = record {
  bytes-random = λ t n. All-replicate n (t % 256) (omega arith);
  bytes-key =
      λ password salt time memory threads n. All-replicate n (length password % 256) (omega arith);
  length-key = λ password salt time memory threads n. length-replicate n (length password % 256);
}

All-take : (n : ℕ) (s : Bytes) → All IsByte s → All IsByte (take n s)
All-take zero s h = tt
All-take (suc n) [] h = tt
All-take (suc n) (b ∷ s) h = (h.0, All-take n s h.1)

low-IsByte : (n : ℕ) (text : Bytes) → All IsByte (take n (low text ++ replicate 31 0))
low-IsByte zero text = tt
low-IsByte (suc n) [] = All-take (suc n) (replicate 31 0) (All-replicate 31 0 (omega arith))
low-IsByte (suc n) (b ∷ text) = (omega arith, low-IsByte n text)

mark-IsByte : (text : Bytes) → IsByte (mark text)
mark-IsByte text = ground arith

pub sample-IsDigestLawful : IsDigestLawful sample
sample-IsDigestLawful text = (mark-IsByte text, low-IsByte 31 text)

abbrev first : Bytes → ℕ
first [] = 0
first (b ∷ s) = b

mark_one : mark (codes "hello") ≡ 1
mark_one = rw (eq_refl (codes "hello")) refl

marked : (text : Bytes) → mark text ≡ 1 → text ≡ codes "hello"
marked text h = elim (Bool-cases (text == codes "hello")) [
  | inl e ↦ (eq_iff text (codes "hello")).0 e
  | inr e ↦ absurd (ground (arith, h, e))
]

pub hello_unique :
    (other : Bytes) → sample.sha256 other ≡ sample.sha256 (codes "hello") → other ≡ codes "hello"
hello_unique other e = marked other (ap first e ∙ mark_one)
