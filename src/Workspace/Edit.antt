-- ===== src/Workspace/Edit.antt =====
-- The operations of src/workspace/workspace.c that load a workspace, change it and save it:
-- `cellar_workspace_set` and the other setters.
pub mod Keys
pub mod Valid
pub mod Kept
pub mod Changes
use fantastic_octo_meme.Prelude.{
  ℕ, ◌%◌, ◌^◌, Bool, true, false, not, ◌&&◌, ◌||◌, List, [], ◌∷◌, length, leb, ◌==◌, Option, none,
  some, if◌then◌else◌,
}
use fantastic_octo_meme.Memory.{Bytes}
use fantastic_octo_meme.Status.{Status, err_invalid_argument, is_ok}
use fantastic_octo_meme.Text.{codes, same_text}
use fantastic_octo_meme.Text.Number.{ℤ, pos, negsuc, atoi, low_word}
use fantastic_octo_meme.Files.{FileSystem}
use fantastic_octo_meme.Workspace.{Workspace, set_field, win_mode_from_name}
use fantastic_octo_meme.Workspace.Config.{load, save}

-- `value && atoi(value)`.
abbrev pub flag : Option Bytes → ℤ
flag none = pos 0
flag (some s) = elim (atoi s) [ pos n ↦ if n == 0 then pos 0 else pos 1 | negsuc n ↦ pos 1 ]

-- What `cellar_workspace_set` changes for a key, and `none` for a key that it does not know.
unfoldable pub edit : Workspace → Bytes → Option Bytes → Option Workspace
edit w key value =
    if same_text key (codes "name")
    then some (record w { name = set_field 64 value })
    else if same_text key (codes "tags")
    then some (record w { tags = set_field 256 value })
    else if same_text key (codes "runner")
    then some (record w { runner = set_field 64 value })
    else if same_text key (codes "gfx") || same_text key (codes "gfx_backend")
    then some (record w { gfx_backend = set_field 32 value })
    else if same_text key (codes "audio") || same_text key (codes "audio_backend")
    then some (record w { audio_backend = set_field 32 value })
    else if same_text key (codes "dll_overrides")
    then some (record w { dll_overrides = set_field 512 value })
    else if same_text key (codes "dependencies")
    then some (record w { dependencies = set_field 256 value })
    else if same_text key (codes "executable") || same_text key (codes "launch")
    then some (record w { executable = set_field 512 value })
    else if same_text key (codes "source")
    then some (record w { source = set_field 512 value })
    else if same_text key (codes "architecture")
    then some (record w { architecture = set_field 16 value })
    else if same_text key (codes "windows_version")
    then some (record w { windows_version = win_mode_from_name value })
    else if same_text key (codes "favorite")
    then some (record w { favorite = flag value })
    else if same_text key (codes "sandbox")
    then some (record w { sandbox_enabled = flag value })
    else if same_text key (codes "shortcut")
    then some (record w { has_shortcut = flag value })
    else none

-- `virtual_desktop ? 1 : 0`.
abbrev pub truth : ℤ → ℤ
truth (pos n) = if n == 0 then pos 0 else pos 1
truth (negsuc n) = pos 1

abbrev pub resized : Workspace → ℕ → ℕ → ℕ → ℤ → Workspace
resized w width height dpi virtual_desktop = record w {
  resolution_width = width;
  resolution_height = height;
  dpi = dpi;
  virtual_desktop = truth virtual_desktop;
}

module _ {F : Type 0} (os : FileSystem F) (getenv : Bytes → Option Bytes) where
  -- What follows the load: an error, or a change that may fail and the save.
  abbrev pub save_if : F → Option Workspace → Status × F
  save_if fs none = (err_invalid_argument, fs)
  save_if fs (some v) = (save os getenv fs v).0

  abbrev pub then_save : F → (Workspace → Option Workspace) → Status × Option Workspace → Status × F
  then_save fs change (st, none) = (err_invalid_argument, fs)
  then_save fs change (st, some w) =
      if is_ok st then save_if fs (change w) else (err_invalid_argument, fs)

  unfoldable pub update :
      F → Option Bytes → Option Bytes → (Workspace → Option Workspace) → Status × F
  update fs root name change = then_save fs change (load os fs root name)

  -- `cellar_workspace_set`, with null pointers as `none`.
  unfoldable pub set : F → Option Bytes → Option Bytes → Option Bytes → Option Bytes → Status × F
  unfolding edit update
  set fs root name none value = (err_invalid_argument, fs)
  set fs root name (some key) value =
      if length key == 0
      then (err_invalid_argument, fs)
      else update fs root name (λ w. edit w key value)

  -- `cellar_workspace_set_permissions`, for a number of 32 bits.
  unfoldable pub set_permissions : F → Option Bytes → Option Bytes → ℕ → Status × F
  unfolding update
  set_permissions fs root name permissions =
      update fs root name (λ w. some (record w { permissions = permissions }))

  -- `cellar_workspace_set_perf_mode`; the values of the enumeration are compared without a sign.
  unfoldable pub set_perf_mode : F → Option Bytes → Option Bytes → ℤ → Status × F
  unfolding update
  set_perf_mode fs root name mode =
      if leb 4 (low_word mode)
      then (err_invalid_argument, fs)
      else update fs root name (λ w. some (record w { perf_mode = mode }))

  -- `cellar_workspace_set_controls`.
  unfoldable pub set_controls : F → Option Bytes → Option Bytes → Option Bytes → Status × F
  unfolding update
  set_controls fs root name none = (err_invalid_argument, fs)
  set_controls fs root name (some controls) =
      update fs root name (λ w. some (record w { controls = set_field 128 (some controls) }))

  -- `cellar_workspace_set_resolution`, for numbers of 32 bits and an `int`.
  unfoldable pub set_resolution : F → Option Bytes → Option Bytes → ℕ → ℕ → ℕ → ℤ → Status × F
  unfolding update
  set_resolution fs root name width height dpi virtual_desktop =
      if width == 0 || height == 0 || dpi == 0
      then (err_invalid_argument, fs)
      else update fs root name λ w. some (resized w width height dpi virtual_desktop)
