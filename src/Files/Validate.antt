-- ===== src/Files/Validate.antt =====
-- internal/files/validate.go: the display name and the content type of an upload.
pub mod Content
pub mod Names
use securevault.Text.{trim_left, is_space, encode, runes_after, trim_right}
use securevault.Base.{
  ltb, if◌then◌else◌, ◌==◌, nat_eq, string_eq, Bytes, bytes_eq, take, keep, any, Fault, codes, ℕ,
  ◌+◌, ◌-◌, ◌/◌, code, Bool, not, ◌||◌, List, [], ◌∷◌,
}
use securevault.Platform.{Platform}

abbrev pub is_separator : ℕ → Bool
is_separator b = b == b'/' || b == b'\\'

-- What follows the last separator: `name[strings.LastIndexAny(name, "/\\")+1:]`.
unfoldable pub last_element : Bytes → Bytes
last_element [] = []
last_element (b ∷ s) =
    let rest = last_element s in
    if any is_separator s then rest else if is_separator b then s else b ∷ s

-- `strings.Trim(name, ".") == ""`
abbrev only_dots : List ℕ → Bool
only_dots rs = not (any (λ r. not (r == b'.')) rs)

abbrev pub max_filename_len : ℕ
max_filename_len = 255

module _ (p : Platform) where
  abbrev pub is_shown : ℕ → Bool
  is_shown r = not (ltb r 32 || r == 127 || not (p.is_print r))

  -- The runes of the name that is kept, before the cut.
  abbrev pub clean : Bytes → List ℕ
  clean name =
      trim_right is_space (trim_left is_space (keep is_shown (runes_after 0 (last_element name))))

  unfoldable pub sanitize_filename : Bytes → Bytes
  unfolding runes_after encode last_element trim_left trim_right
  sanitize_filename name =
      let rs = clean name in
      if only_dots rs then codes "unnamed" else take max_filename_len (encode rs)
