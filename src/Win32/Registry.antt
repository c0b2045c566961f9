-- ===== src/Win32/Registry.antt =====
-- src/win32/api.c: the export registry. A name is its text; a function is its address, and 0 is
-- null. The growable array keeps its capacity; `alloc` says whether a `realloc` to that many
-- entries succeeds.
pub mod Names
pub mod Lookup
use fantastic_octo_meme.Prelude.{
  ℕ, zero, suc, ◌+◌, ◌*◌, Bool, true, false, not, ◌&&◌, ◌||◌, List, [], ◌∷◌, ◌++◌, length,
  get_elem?, leb, ◌==◌, Option, some, none, if◌then◌else◌,
}
use fantastic_octo_meme.Memory.{Bytes}

-- `cellar_export_t` and `cellar_module_t`; null fields are `none`.
pub record Export : Type 0 where
  pub name : Bytes
  pub fn : ℕ

pub record Module : Type 0 where
  pub name : Option Bytes
  pub exports : Option (List Export)

-- `g_modules` with `g_module_count` entries, and `g_module_cap`.
pub record Registry : Type 0 where
  pub modules : List (Bytes × List Export)
  pub cap : ℕ

abbrev pub module_count : Registry → ℕ
module_count r = length r.modules

-- `cellar_win32_module_at`.
abbrev pub module_at : Registry → ℕ → Option (Bytes × List Export)
module_at r i = get_elem? r.modules i

abbrev pub empty : Registry
empty = record { modules = []; cap = 0 }

-- The growth of the array, if it is full; `none` when `realloc` fails.
grown : (ℕ → Bool) → Registry → Option ℕ
grown alloc r =
    let ncap = if r.cap == 0 then 8 else r.cap * 2 in
    if module_count r == r.cap then (if alloc ncap then some ncap else none) else some r.cap

append_module : (ℕ → Bool) → Registry → Bytes → List Export → Registry
append_module alloc r name exports = elim (grown alloc r) [
  | none ↦ r
  | some cap ↦ record { modules = r.modules ++ (name, exports) ∷ []; cap = cap }
]

register_parts : (ℕ → Bool) → Registry → Option Bytes → Option (List Export) → Registry
register_parts alloc r none exports = r
register_parts alloc r (some name) none = r
register_parts alloc r (some name) (some exports) = append_module alloc r name exports

-- `cellar_win32_register_module`; a null module is `none`.
unfoldable pub register_module : (ℕ → Bool) → Registry → Option Module → Registry
unfolding register_parts append_module grown
register_module alloc r none = r
register_module alloc r (some m) = register_parts alloc r m.name m.exports

-- `tolower` of the C locale.
unfoldable pub to_lower : ℕ → ℕ
to_lower c = if leb b'A' c && leb c b'Z' then c + 32 else c

abbrev pub has_dot : Bytes → Bool
has_dot [] = false
has_dot (c ∷ s) = c == b'.' || has_dot s

-- The text in front of the last dot, or all of it: what `la` counts after `strrchr`.
unfoldable pub stem : Bytes → Bytes
stem [] = []
stem (c ∷ s) = if c == b'.' && not (has_dot s) then [] else c ∷ stem s

-- The comparison loop, and the test of the lengths before it.
unfoldable pub equal_folded : Bytes → Bytes → Bool
equal_folded [] [] = true
equal_folded (a ∷ as') (b ∷ bs) = to_lower a == to_lower b && equal_folded as' bs
equal_folded _ _ = false

unfoldable pub module_name_eq : Bytes → Bytes → Bool
module_name_eq a b = equal_folded (stem a) (stem b)

-- `strcmp(a, b) == 0`.
unfoldable pub str_eq : Bytes → Bytes → Bool
str_eq [] [] = true
str_eq (a ∷ as') (b ∷ bs) = a == b && str_eq as' bs
str_eq _ _ = false

unfoldable pub find_in : List (Bytes × List Export) → Bytes → Option (Bytes × List Export)
find_in [] name = none
find_in (m ∷ ms) name = if module_name_eq m.0 name then some m else find_in ms name

-- `cellar_win32_find_module`.
unfoldable pub find_module : Registry → Option Bytes → Option (Bytes × List Export)
unfolding find_in
find_module r none = none
find_module r (some name) = find_in r.modules name

unfoldable pub exists_in : List Export → Bytes → Bool
exists_in [] f = false
exists_in (e ∷ es) f = if str_eq e.name f then true else exists_in es f

unfoldable pub lookup_in : List Export → Bytes → ℕ
lookup_in [] f = 0
lookup_in (e ∷ es) f = if str_eq e.name f then e.fn else lookup_in es f

-- `cellar_win32_export_exists`.
unfoldable pub export_exists : Registry → Option Bytes → Option Bytes → Bool
unfolding exists_in
export_exists r name none = false
export_exists r name (some f) = elim (find_module r name) [
  | none ↦ false
  | some m ↦ exists_in m.1 f
]

-- `cellar_win32_lookup`.
unfoldable pub lookup : Registry → Option Bytes → Option Bytes → ℕ
unfolding lookup_in
lookup r name none = 0
lookup r name (some f) = elim (find_module r name) [ none ↦ 0 | some m ↦ lookup_in m.1 f ]

-- `cellar_win32_resolve`: an import by ordinal is never bound.
unfoldable pub resolve : Registry → Option Bytes → Option Bytes → ℕ → ℕ
resolve r name none ordinal = 0
resolve r name (some f) ordinal = lookup r name (some f)
