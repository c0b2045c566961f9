-- ===== src/Conf.antt =====
-- The `key=value` files of src/workspace/workspace.c and src/compat/profile.c: `find_field`, which
-- both have, and the lines that `fprintf` writes.
pub mod Lookup
pub mod Back
pub mod Read
use fantastic_octo_meme.Prelude.{
  ℕ, ◌-◌, Bool, true, List, [], ◌∷◌, ◌++◌, take, ◌==◌, Option, none, some, if◌then◌else◌,
}
use fantastic_octo_meme.Memory.{Bytes}
use fantastic_octo_meme.Text.{newline, clip, same_text}
use fantastic_octo_meme.Util.{c_str}
use fantastic_octo_meme.Text.Number.{ℤ, strtol, strtoull, to_int, atoi}

-- `strncmp(p, key, klen) == 0 && p[klen] == '='`: what stands behind the sign, if so.
unfoldable pub field_at : Bytes → Bytes → Option Bytes
field_at [] [] = none
field_at [] (c ∷ p) = if c == b'=' then some p else none
field_at (k ∷ key) [] = none
field_at (k ∷ key) (c ∷ p) = if k == c then field_at key p else none

-- The bytes up to the end of the line.
unfoldable pub line_of : Bytes → Bytes
line_of [] = []
line_of (c ∷ p) = if c == newline then [] else c ∷ line_of p

-- The loop over the lines; `start` says whether the text begins with a line.
unfoldable pub find_from : Bool → Bytes → ℕ → Bytes → Option Bytes
find_from start key cap [] = none
find_from start key cap (c ∷ p) =
    let rest = find_from (c == newline) key cap p in
    if start
    then elim (field_at key (c ∷ p)) [ some v ↦ some (clip cap (line_of v)) | none ↦ rest ]
    else rest

-- `find_field(conf, key, dst, cap)`: what it stores, if it finds the key.
abbrev pub find_field : Bytes → Bytes → ℕ → Option Bytes
find_field conf key cap = find_from true key cap conf

-- A field of an array of `cap` bytes that was cleared before.
abbrev pub or_empty : Option Bytes → Bytes
or_empty none = []
or_empty (some s) = s

abbrev pub field_text : Bytes → Bytes → ℕ → Bytes
field_text conf key cap = or_empty (find_field conf key cap)

-- `field_int` of src/workspace/workspace.c, and `field_u64`.
unfoldable pub field_int : Bytes → Bytes → ℤ → ℤ
field_int conf key def = elim (find_field conf key 64) [ none ↦ def | some b ↦ to_int (strtol b) ]

unfoldable pub field_u64 : Bytes → Bytes → ℕ → ℕ
field_u64 conf key def = elim (find_field conf key 64) [ none ↦ def | some b ↦ strtoull b ]

-- `field_int` of src/compat/profile.c, which takes `atoi` instead.
unfoldable pub field_atoi : Bytes → Bytes → ℤ → ℤ
field_atoi conf key def = elim (find_field conf key 64) [ none ↦ def | some b ↦ atoi b ]

-- The line that `fprintf(f, "key=%s\n", value)` writes, and a file of such lines behind a comment.
abbrev pub line : Bytes → Bytes → Bytes
line key value = key ++ b'=' ∷ (value ++ newline ∷ [])

abbrev pub Fields : Type 0
Fields = List (Bytes × Bytes)

abbrev pub render : Fields → Bytes
render [] = []
render ((key, value) ∷ fs) = line key value ++ render fs

abbrev pub document : Bytes → Fields → Bytes
document comment fs = b'#' ∷ (comment ++ newline ∷ render fs)

-- `read_text`: the text that a buffer of `cap` bytes holds after `fread` of the file and the
-- terminating zero.
abbrev pub buffered : ℕ → Bytes → Bytes
buffered cap content = c_str (clip cap content)
