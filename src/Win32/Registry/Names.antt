-- ===== src/Win32/Registry/Names.antt =====
-- The comparison of module names is an equivalence that ignores case and the last extension.
use fantastic_octo_meme.Prelude.{true, false, [], ◌∷◌, ◌++◌, map, ◌≡◌, ◌↔◌, refl, arith}
use fantastic_octo_meme.Memory.{Bytes}
use fantastic_octo_meme.Win32.Registry.{
  to_lower, has_dot, stem, equal_folded, module_name_eq, str_eq,
}

-- The key that the comparison reads: the stem in lower case.
abbrev pub key : Bytes → Bytes
key s = map to_lower (stem s)

equal_folded_iff : (a b : Bytes) → (equal_folded a b ≡ true) ↔ (map to_lower a ≡ map to_lower b)
unfolding equal_folded
equal_folded_iff [] [] = ground arith
equal_folded_iff [] (y ∷ b) = ground arith
equal_folded_iff (x ∷ a) [] = ground arith
equal_folded_iff (x ∷ a) (y ∷ b) = ground (arith, equal_folded_iff a b)

-- Two module names match exactly when their stems are the same text in lower case.
pub module_name_eq_iff : (a b : Bytes) → (module_name_eq a b ≡ true) ↔ (key a ≡ key b)
unfolding module_name_eq
module_name_eq_iff a b = equal_folded_iff (stem a) (stem b)

pub str_eq_iff : (a b : Bytes) → (str_eq a b ≡ true) ↔ (a ≡ b)
unfolding str_eq
str_eq_iff [] [] = ground arith
str_eq_iff [] (y ∷ b) = ground arith
str_eq_iff (x ∷ a) [] = ground arith
str_eq_iff (x ∷ a) (y ∷ b) = ground (arith, str_eq_iff a b)

has_dot-extension : (s ext : Bytes) → has_dot (s ++ (b'.' ∷ ext)) ≡ true
has_dot-extension [] ext = ground arith
has_dot-extension (c ∷ s) ext = ground (arith, has_dot-extension s ext)

stem-no_dot : (s : Bytes) → has_dot s ≡ false → stem s ≡ s
unfolding stem
stem-no_dot [] h = refl
stem-no_dot (c ∷ s) h = ground (arith, stem-no_dot s)

-- A text with no dot in it is its own stem, also with an extension behind it.
pub stem-extension :
    (s ext : Bytes) → has_dot s ≡ false → has_dot ext ≡ false → stem (s ++ (b'.' ∷ ext)) ≡ s
unfolding stem
stem-extension [] ext h k = ground arith
stem-extension (c ∷ s) ext h k = ground (arith, stem-extension s ext, has_dot-extension s ext)
