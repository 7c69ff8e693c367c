-- ===== src/Storage/Paths.antt =====
-- The paths of objects: one for each address, and none of a temporary file.
use securevault.Base.{
  nat_eq, string_eq, Bytes, IsByte, bytes_eq, length, take, All, codes, ℕ, ◌*◌, ◌/◌, ◌%◌, ◌<◌, ◌≡◌,
  refl, sym, ap, ◌∙◌, [], ◌∷◌, ◌++◌, arith,
}
use mathlib.Core.List.{append_assoc, append_cancel_left, append_cancel_right}
use securevault.Storage.Store.{Store, hex, hex_digit, object_path}
use securevault.Storage.Frame.{temp_path, IsNoTemp}

hex_digit-injective : (a b : ℕ) → a < 16 → b < 16 → hex_digit a ≡ hex_digit b → a ≡ b
unfolding hex_digit
hex_digit-injective a b h k e = ground arith

hex-injective : (s t : Bytes) → All IsByte s → All IsByte t → hex s ≡ hex t → s ≡ t
unfolding hex
hex-injective [] [] hs ht e = refl
hex-injective [] (b ∷ t) hs ht e = cc
hex-injective (a ∷ s) [] hs ht e = cc
hex-injective (a ∷ s) (b ∷ t) hs ht e = ground (
  arith,
  hex-injective s t hs.1 ht.1,
  hex_digit-injective (a / 16) (b / 16),
  hex_digit-injective (a % 16) (b % 16),
)

abbrev tail_of : Bytes → Bytes
tail_of h = take 2 h ++ (codes "/" ++ (h ++ codes ".obj"))

object_path-eq :
    (s : Store) (hash : Bytes)
    → object_path s hash ≡ s.root ++ (codes "/objects/" ++ tail_of (hex hash))
unfolding object_path
object_path-eq s hash = simp append_assoc

temp_path-eq :
    (s : Store) (suffix : Bytes) → temp_path s suffix ≡ s.root ++ (codes "/tmp/staged-" ++ suffix)
temp_path-eq s suffix = simp append_assoc

-- The first two digits stand twice, so the whole digits decide.
tail_of-injective : (g h : Bytes) → length g ≡ length h → tail_of g ≡ tail_of h → g ≡ h
tail_of-injective [] [] same e = refl
tail_of-injective [] (y ∷ h) same e = absurd (omega arith)
tail_of-injective (x ∷ g) [] same e = absurd (omega arith)
tail_of-injective (x ∷ []) (y ∷ []) same e = cc
tail_of-injective (x ∷ []) (y ∷ v ∷ h) same e = absurd (omega arith)
tail_of-injective (x ∷ u ∷ g) (y ∷ []) same e = absurd (omega arith)
tail_of-injective (x ∷ u ∷ g) (y ∷ v ∷ h) same e = append_cancel_right _ _ (codes ".obj") rest
  where
    rest : (x ∷ u ∷ g) ++ codes ".obj" ≡ (y ∷ v ∷ h) ++ codes ".obj"
    rest = cc

length-hex : (s : Bytes) → length (hex s) ≡ 2 * length s
unfolding hex
length-hex [] = omega arith
length-hex (b ∷ s) = omega (arith, length-hex s)

-- Two addresses of the same length, made of bytes, have the same object file only if they are the
-- same.
pub object_path-injective :
    (s : Store) (a b : Bytes)
    → All IsByte a
    → All IsByte b
    → length a ≡ length b
    → object_path s a ≡ object_path s b
    → a ≡ b
object_path-injective s a b ha hb same e = hex-injective a b ha hb (
    tail_of-injective (hex a) (hex b) (omega (arith, length-hex a, length-hex b))
      (append_cancel_left (codes "/objects/") _ _ (append_cancel_left s.root _ _ regrouped)))
  where
    regrouped :
        s.root ++ (codes "/objects/" ++ tail_of (hex a))
        ≡ s.root ++ (codes "/objects/" ++ tail_of (hex b))
    regrouped = sym (object_path-eq s a) ∙ e ∙ object_path-eq s b

abbrev second : Bytes → ℕ
second (a ∷ b ∷ s) = b
second _ = 0

-- No address has its object file where the temporary files of the store are.
pub object_path-IsNoTemp : (s : Store) (hash : Bytes) → IsNoTemp s (object_path s hash)
object_path-IsNoTemp s hash suffix e =
    different
      (append_cancel_left s.root _ _ (sym (temp_path-eq s suffix) ∙ e ∙ object_path-eq s hash))
  where
    different : ¬ (codes "/tmp/staged-" ++ suffix ≡ codes "/objects/" ++ tail_of (hex hash))
    different d = omega (arith, ap second d)
