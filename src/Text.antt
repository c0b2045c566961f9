-- ===== src/Text.antt =====
-- Texts: the bytes of a C string without its zero. A `char` array of a structure is the text that
-- it holds, and a literal of the source is the text of its characters.
pub mod Decimal
pub mod Number
pub mod Same
use Prim.Native.Char.{code}
use Prim.Native.String.{String}
use fantastic_octo_meme.Prelude.{
  ℕ, ◌+◌, ◌-◌, ◌≢◌, Bool, true, false, not, List, [], ◌∷◌, ◌++◌, take, leb, ◌==◌, ◌&&◌,
  if◌then◌else◌,
}
use fantastic_octo_meme.Memory.{Bytes}

abbrev pub codes : String → Bytes
codes String.[] = []
codes (String.◌∷◌ c s) = code c ∷ codes s

abbrev pub newline : ℕ
newline = 10

-- What `strlcpy` or `snprintf` keeps of a text in an array of `cap` bytes.
abbrev pub clip : ℕ → Bytes → Bytes
clip cap s = take (cap - 1) s

-- The byte does not occur.
abbrev pub Lacks : ℕ → Bytes → Type 0
Lacks b [] = Unit {0}
Lacks b (c ∷ s) = (c ≢ b) × Lacks b s

abbrev pub lacks : ℕ → Bytes → Bool
lacks b [] = true
lacks b (c ∷ s) = not (c == b) && lacks b s

-- `strcmp(a, b) == 0`.
unfoldable pub same_text : Bytes → Bytes → Bool
same_text [] [] = true
same_text (a ∷ as') (b ∷ bs) = a == b && same_text as' bs
same_text _ _ = false

-- `tolower` of the C locale, and `strcasecmp(a, b) == 0`.
abbrev pub lower : ℕ → ℕ
lower c = if leb b'A' c && leb c b'Z' then c + 32 else c

unfoldable pub same_folded : Bytes → Bytes → Bool
same_folded [] [] = true
same_folded (a ∷ as') (b ∷ bs) = lower a == lower b && same_folded as' bs
same_folded _ _ = false
