-- ===== src/Prefix/Settings.antt =====
-- `cellar_prefix_get_setting` and `cellar_prefix_set_setting` of src/prefix/prefix.c: any line
-- `key=value` of `prefix.conf`.
pub mod Lines
pub mod Kept
pub mod Forgotten
use fantastic_octo_meme.Prelude.{
  ℕ, ◌-◌, Bool, true, false, not, ◌&&◌, List, [], ◌∷◌, ◌++◌, length, ◌==◌, Option, none, some,
  if◌then◌else◌,
}
use fantastic_octo_meme.Memory.{Bytes}
use fantastic_octo_meme.Status.{Status, err_invalid_argument}
use fantastic_octo_meme.Text.{newline, clip}
use fantastic_octo_meme.Conf.{field_at, line, buffered, or_empty}
use fantastic_octo_meme.Files.{FileSystem, stored}
use fantastic_octo_meme.Prefix.{prefix_path, conf_path}
use fantastic_octo_meme.Prefix.Config.{prefix_info, found}

-- The lines that the two loops walk over, without their newlines; nothing follows the last newline.
abbrev pub on_first : ℕ → List Bytes → List Bytes
on_first c [] = (c ∷ []) ∷ []
on_first c (l ∷ ls) = (c ∷ l) ∷ ls

unfoldable pub lines_of : Bytes → List Bytes
lines_of [] = []
lines_of (c ∷ s) = let ls = lines_of s in if c == newline then [] ∷ ls else on_first c ls

-- The value of the first line with the key.
unfoldable pub setting : Bytes → List Bytes → Option Bytes
setting key [] = none
setting key (l ∷ ls) = elim (field_at key l) [ some v ↦ some v | none ↦ setting key ls ]

-- Whether a line has the key.
abbrev pub has_key : Bytes → Bytes → Bool
has_key key l = elim (field_at key l) [ some v ↦ true | none ↦ false ]

-- What the loop of `cellar_prefix_set_setting` writes, and whether it found the key.
unfoldable pub replaced : Bytes → Bytes → List Bytes → Bytes × Bool
replaced key nline [] = ([], false)
replaced key nline (l ∷ ls) =
    let rest = replaced key nline ls in
    if has_key key l then (nline ++ rest.0, true) else (l ++ (newline ∷ rest.0), rest.1)

-- The whole file that it writes.
abbrev pub new_line : Bytes → Bytes → Bytes
new_line key value = clip 520 (line key value)

unfoldable pub rebuilt : Bytes → Bytes → Bytes → Bytes
unfolding replaced lines_of
rebuilt key value buf =
    let done = replaced key (new_line key value) (lines_of buf) in
    if done.1 then done.0 else done.0 ++ new_line key value

module _ {F : Type 0} (os : FileSystem F) (is_dir : F → Bytes → Bool) where
  -- `cellar_prefix_get_setting`: the status and what is put into `out`, an array of `size` bytes.
  unfoldable pub get_setting :
      F → Option Bytes → Option Bytes → Option Bytes → ℕ → Status × Option Bytes
  unfolding prefix_info setting lines_of
  get_setting fs root name none size = (err_invalid_argument, none)
  get_setting fs root name (some key) size =
      let read : Status × Option Bytes = elim (os.read fs (conf_path (prefix_path 640 root name))) [
        | none ↦ (err_invalid_argument, none)
        | some bytes ↦
            (Status.ok, some (clip size (or_empty (setting key (lines_of (buffered 2048 bytes))))))
      ] in
      if not (size == 0) && found (prefix_info os is_dir fs root name)
      then read
      else (err_invalid_argument, none)

  -- `cellar_prefix_set_setting`.
  unfoldable pub set_setting :
      F → Option Bytes → Option Bytes → Option Bytes → Option Bytes → Status × F
  unfolding prefix_info rebuilt
  set_setting fs root name none value = (err_invalid_argument, fs)
  set_setting fs root name (some key) none = (err_invalid_argument, fs)
  set_setting fs root name (some key) (some value) =
      let path = conf_path (prefix_path 640 root name) in
      let written : Status × F = elim (os.read fs path) [
        | none ↦ (err_invalid_argument, fs)
        | some bytes ↦ stored fs (os.write fs path (rebuilt key value (buffered 4096 bytes)))
      ] in
      if not (length key == 0) && found (prefix_info os is_dir fs root name)
      then written
      else (err_invalid_argument, fs)
