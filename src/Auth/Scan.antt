-- ===== src/Auth/Scan.antt =====
-- fmt.Sscanf for the two formats of internal/auth/password.go: what follows the last verb is not read.
use securevault.Base.{
  leb, if◌then◌else◌, ◌==◌, nat_eq, string_eq, Bytes, bytes_eq, codes, ℕ, ◌+◌, ◌-◌, ◌*◌, Bool, true,
  false, ◌&&◌, Option, none, some, List, [], ◌∷◌,
}
use securevault.Text.{is_space}

infixl 5 ◌>>=◌
abbrev pub ◌>>=◌ : {A B : Type 0} → Option A → (A → Option B) → Option B
none >>= f = none
some a >>= f = f a

-- SkipSpace: a line end is an error.
unfoldable pub skip_space : List ℕ → Option (List ℕ)
skip_space [] = some []
skip_space (r ∷ rs) =
    let rest = skip_space rs in if r == 10 then none else if is_space r then rest else some (r ∷ rs)

abbrev is_digit : ℕ → Bool
is_digit r = leb b'0' r && leb r b'9'

-- The digits that stand next, as a number, and what follows them.
unfoldable pub read_digits : ℕ → List ℕ → ℕ × List ℕ
read_digits n [] = (n, [])
read_digits n (r ∷ rs) =
    let more = read_digits (n * 10 + (r - b'0')) rs in if is_digit r then more else (n, r ∷ rs)

abbrev next_is_digit : List ℕ → Bool
next_is_digit [] = false
next_is_digit (r ∷ rs) = is_digit r

-- scanNumber, with the bound of the type that the number is read into.
unfoldable pub read_number : ℕ → List ℕ → Option (ℕ × List ℕ)
unfolding read_digits
read_number limit rs =
    let (n, rest) = read_digits 0 rs in
    if next_is_digit rs && leb n limit then some (n, rest) else none

-- `%d` into a uint32.
abbrev pub read_uint32 : List ℕ → Option (ℕ × List ℕ)
read_uint32 rs = do at ← skip_space rs; read_number 4294967295 at

-- `%d` into an int: the sign, and the digits.
abbrev pub read_int : List ℕ → Option ((Bool × ℕ) × List ℕ)
read_int rs = do at ← skip_space rs; signed at
  where
    signed : List ℕ → Option ((Bool × ℕ) × List ℕ)
    signed [] = none
    signed (r ∷ rest) =
        if r == b'-'
        then (read_number 9223372036854775808 rest >>= λ m. some ((true, m.0), m.1))
        else (read_number 9223372036854775807 (if r == b'+' then rest else r ∷ rest) >>= λ m.
            some ((false, m.0), m.1))

-- A text of the format itself.
unfoldable pub read_text : Bytes → List ℕ → Option (List ℕ)
read_text [] rs = some rs
read_text (b ∷ s) [] = none
read_text (b ∷ s) (r ∷ rs) = if b == r then read_text s rs else none

-- "v=%d"
unfoldable pub scan_version : List ℕ → Option (Bool × ℕ)
unfolding skip_space read_number read_text
scan_version rs = do at ← read_text (codes "v=") rs; (v, rest) ← read_int at; some v

-- "m=%d,t=%d,p=%d"
unfoldable pub scan_parameters : List ℕ → Option (ℕ × ℕ × ℕ)
unfolding skip_space read_number read_text
scan_parameters rs = do
  at_m ← read_text (codes "m=") rs
  (m, after_m) ← read_uint32 at_m
  at_t ← read_text (codes ",t=") after_m
  (t, after_t) ← read_uint32 at_t
  at_p ← read_text (codes ",p=") after_t
  (q, after_p) ← read_uint32 at_p
  some (m, t, q)
