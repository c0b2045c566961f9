-- ===== src/Workspace/Config.antt =====
-- `cellar_workspace_load` and `cellar_workspace_save` of src/workspace/workspace.c.
pub mod Saved
pub mod RoundTrip
pub mod Loaded
use fantastic_octo_meme.Prelude.{
  ℕ, zero, suc, ◌+◌, ◌-◌, ◌%◌, ◌^◌, Bool, true, false, not, List, [], ◌∷◌, ◌++◌, length, ◌==◌,
  Option, none, some, if◌then◌else◌,
}
use fantastic_octo_meme.Memory.{Bytes}
use fantastic_octo_meme.Status.{Status, err_invalid_argument}
use fantastic_octo_meme.Text.{codes, clip}
use fantastic_octo_meme.Text.Decimal.{decimal}
use fantastic_octo_meme.Text.Number.{ℤ, pos, negsuc, print_int, low_word}
use fantastic_octo_meme.Conf.{Fields, document, buffered, field_text, field_int, field_u64}
use fantastic_octo_meme.Files.{FileSystem, stored, mkdir_p}
use fantastic_octo_meme.Workspace.{
  Workspace, valid_name, join, ws_dir, set_field, setup_kind_name, workspace_root,
}

-- The text that is written for the label: a label that is empty is the kind's name.
abbrev pub label : Workspace → Bytes
label w = if length w.setup_label == 0 then setup_kind_name w.setup else w.setup_label

abbrev pub comment : Workspace → Bytes
comment w = codes " winaltor workspace " ++ w.name

-- The lines of `app.conf`.
abbrev pub fields : Workspace → Fields
fields w =
    (codes "name", w.name)
    ∷ (codes "path", w.path)
    ∷ (codes "id", w.id)
    ∷ (codes "setup", print_int w.setup)
    ∷ (codes "setup_label", label w)
    ∷ (codes "source", w.source)
    ∷ (codes "executable", w.executable)
    ∷ (codes "architecture", w.architecture)
    ∷ (codes "runner", w.runner)
    ∷ (codes "windows_version", print_int w.windows_version)
    ∷ (codes "gfx_backend", w.gfx_backend)
    ∷ (codes "audio_backend", w.audio_backend)
    ∷ (codes "dll_overrides", w.dll_overrides)
    ∷ (codes "dependencies", w.dependencies)
    ∷ (codes "tags", w.tags)
    ∷ (codes "installed_at", w.installed_at)
    ∷ (codes "last_launch", w.last_launch)
    ∷ (codes "exe_hash", w.exe_hash)
    ∷ (codes "compat_rating", w.compat_rating)
    ∷ (codes "favorite", print_int w.favorite)
    ∷ (codes "has_shortcut", print_int w.has_shortcut)
    ∷ (codes "install_size", decimal w.install_size)
    ∷ (codes "perf_mode", print_int w.perf_mode)
    ∷ (codes "resolution_width", decimal w.resolution_width)
    ∷ (codes "resolution_height", decimal w.resolution_height)
    ∷ (codes "dpi", decimal w.dpi)
    ∷ (codes "virtual_desktop", print_int w.virtual_desktop)
    ∷ (codes "permissions", decimal w.permissions)
    ∷ (codes "controls", w.controls)
    ∷ (codes "sandbox_enabled", print_int w.sandbox_enabled)
    ∷ []

-- What is written to `app.conf`.
unfoldable pub content : Workspace → Bytes
content w = document (comment w) (fields w)

-- What the loader makes of the text of `app.conf`, for a name and its directory.
unfoldable pub from_text : Bytes → Bytes → Bytes → Workspace
from_text name ws buf = record {
  name = clip 64 name;
  path = clip 640 ws;
  id = field_text buf (codes "id") 32;
  setup = field_int buf (codes "setup") (pos 0);
  setup_label = field_text buf (codes "setup_label") 24;
  source = field_text buf (codes "source") 512;
  executable = field_text buf (codes "executable") 512;
  architecture = field_text buf (codes "architecture") 16;
  runner = field_text buf (codes "runner") 64;
  windows_version = field_int buf (codes "windows_version") (pos 2);
  gfx_backend = field_text buf (codes "gfx_backend") 32;
  audio_backend = field_text buf (codes "audio_backend") 32;
  dll_overrides = field_text buf (codes "dll_overrides") 512;
  dependencies = field_text buf (codes "dependencies") 256;
  tags = field_text buf (codes "tags") 256;
  installed_at = field_text buf (codes "installed_at") 40;
  last_launch = field_text buf (codes "last_launch") 40;
  exe_hash = field_text buf (codes "exe_hash") 40;
  compat_rating = field_text buf (codes "compat_rating") 16;
  favorite = field_int buf (codes "favorite") (pos 0);
  has_shortcut = field_int buf (codes "has_shortcut") (pos 0);
  install_size = field_u64 buf (codes "install_size") 0;
  perf_mode = field_int buf (codes "perf_mode") (pos 0);
  resolution_width = low_word (field_int buf (codes "resolution_width") (pos 1280));
  resolution_height = low_word (field_int buf (codes "resolution_height") (pos 720));
  dpi = low_word (field_int buf (codes "dpi") (pos 96));
  virtual_desktop = field_int buf (codes "virtual_desktop") (pos 0);
  permissions = field_u64 buf (codes "permissions") 0 % 2 ^ 32;
  controls = field_text buf (codes "controls") 128;
  sandbox_enabled = field_int buf (codes "sandbox_enabled") (pos 1);
}

-- The file of a workspace in the directory.
abbrev pub app_conf : Bytes → Bytes
app_conf ws = join 720 ws (codes "app.conf")

-- A path that is empty is filled in.
abbrev pub located : (Bytes → Option Bytes) → Workspace → Workspace
located getenv w =
    if length w.path == 0
    then record w { path = ws_dir (some (clip 1024 (workspace_root getenv))) (some w.name) }
    else w

module _ {F : Type 0} (os : FileSystem F) where
  open os use {read, write}

  -- `cellar_workspace_load`, with null pointers as `none`.
  unfoldable pub load : F → Option Bytes → Option Bytes → Status × Option Workspace
  unfolding from_text
  load fs none name = (err_invalid_argument, none)
  load fs (some root) none = (err_invalid_argument, none)
  load fs (some root) (some name) =
      let ws = ws_dir (some root) (some name) in
      let loaded : Status × Option Workspace = elim (read fs (app_conf ws)) [
        | none ↦ (err_invalid_argument, none)
        | some bytes ↦ (Status.ok, some (from_text name ws (buffered 16384 bytes)))
      ] in
      if valid_name (some name) then loaded else (err_invalid_argument, none)

  -- `cellar_workspace_save`: the status and the files, and what the structure holds after. The
  -- result of `cellar_mkdir_p` is not looked at.
  unfoldable pub save : (Bytes → Option Bytes) → F → Workspace → (Status × F) × Workspace
  save getenv fs w =
      let v = located getenv w in
      let made = (mkdir_p os fs v.path).0 in
      if length w.name == 0
      then ((err_invalid_argument, fs), w)
      else (stored made (write made (app_conf v.path) (content v)), v)
