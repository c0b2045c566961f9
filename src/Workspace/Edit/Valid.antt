-- ===== src/Workspace/Edit/Valid.antt =====
-- A change keeps a workspace valid.
use fantastic_octo_meme.Prelude.{
  ℕ, ◌^◌, ◌<◌, ◌≡◌, Bool, true, false, ◌==◌, Bool-cases, inl, inr, if◌then◌else◌, arith, Option,
  none, some,
}
use fantastic_octo_meme.Memory.{Bytes}
use fantastic_octo_meme.Text.Number.{ℤ, pos, negsuc, IsInt, atoi}
use fantastic_octo_meme.Conf.Back.{fits}
use fantastic_octo_meme.Conf.Read.{clip-fits_one_line}
use fantastic_octo_meme.Conf.{or_empty}
use fantastic_octo_meme.Workspace.{Workspace, set_field, win_mode_from_name}
use fantastic_octo_meme.Workspace.Config.Saved.{IsValid}
use fantastic_octo_meme.Workspace.Config.Loaded.{one_line}
use fantastic_octo_meme.Workspace.Edit.{resized, truth, flag, edit}

truth-IsInt : (z : ℤ) → IsInt (truth z)
truth-IsInt (pos n) = elim (Bool-cases (n == 0)) [
  | inl zero_it ↦ rw zero_it (omega arith)
  | inr nonzero ↦ rw nonzero (omega arith)
]
truth-IsInt (negsuc n) = omega arith

set_field-fits :
    (cap : ℕ) (value : Option Bytes)
    → 0 < cap
    → one_line (or_empty value) ≡ true
    → fits cap (set_field cap value) ≡ true
set_field-fits cap value h one =
    clip-fits_one_line cap (or_empty value) h (ground arith) (ground arith)

flag-IsInt : (value : Option Bytes) → IsInt (flag value)
flag-IsInt none = omega arith
flag-IsInt (some s) = or_one (atoi s)
  where
    or_one : (z : ℤ) → IsInt (elim z [ pos n ↦ if n == 0 then pos 0 else pos 1 | negsuc n ↦ pos 1 ])
    or_one (pos n) = truth-IsInt (pos n)
    or_one (negsuc n) = omega arith

win_mode-IsInt : (value : Option Bytes) → IsInt (win_mode_from_name value)
win_mode-IsInt none = omega arith
win_mode-IsInt (some s) = ground arith

-- A change leaves a valid workspace.
unfoldable Valid : Option Workspace → Type 0
Valid none = Unit {0}
Valid (some v) = IsValid v

Valid-none : Valid none
unfolding Valid
Valid-none = tt

Valid-some : (v : Workspace) → IsValid v → Valid (some v)
unfolding Valid
Valid-some v h = h

Valid-either : (b : Bool) (o p : Option Workspace) → Valid o → Valid p → Valid (if b then o else p)
Valid-either true o p h g = h
Valid-either false o p h g = g

-- New texts and numbers that fit leave a workspace valid.
edited-IsValid :
    {w : Workspace}
    {name tags runner gfx_backend audio_backend dll_overrides dependencies executable source
      architecture : Bytes}
    {windows_version favorite sandbox_enabled has_shortcut virtual_desktop : ℤ}
    {resolution_width resolution_height dpi : ℕ}
    → IsValid w
    → fits 64 name ≡ true
    → fits 256 tags ≡ true
    → fits 64 runner ≡ true
    → fits 32 gfx_backend ≡ true
    → fits 32 audio_backend ≡ true
    → fits 512 dll_overrides ≡ true
    → fits 256 dependencies ≡ true
    → fits 512 executable ≡ true
    → fits 512 source ≡ true
    → fits 16 architecture ≡ true
    → IsInt windows_version
    → IsInt favorite
    → IsInt sandbox_enabled
    → IsInt has_shortcut
    → IsInt virtual_desktop
    → resolution_width < 2 ^ 32
    → resolution_height < 2 ^ 32
    → dpi < 2 ^ 32
    → IsValid (record w {
      name = name;
      tags = tags;
      runner = runner;
      gfx_backend = gfx_backend;
      audio_backend = audio_backend;
      dll_overrides = dll_overrides;
      dependencies = dependencies;
      executable = executable;
      source = source;
      architecture = architecture;
      windows_version = windows_version;
      favorite = favorite;
      sandbox_enabled = sandbox_enabled;
      has_shortcut = has_shortcut;
      virtual_desktop = virtual_desktop;
      resolution_width = resolution_width;
      resolution_height = resolution_height;
      dpi = dpi;
    })
edited-IsValid v h0 h1 h2 h3 h4 h5 h6 h7 h8 h9 h10 h11 h12 h13 h14 h15 h16 h17 = record {
  name_fits = h0;
  path_fits = v.path_fits;
  id_fits = v.id_fits;
  setup_label_fits = v.setup_label_fits;
  source_fits = h8;
  executable_fits = h7;
  architecture_fits = h9;
  runner_fits = h2;
  gfx_backend_fits = h3;
  audio_backend_fits = h4;
  dll_overrides_fits = h5;
  dependencies_fits = h6;
  tags_fits = h1;
  installed_at_fits = v.installed_at_fits;
  last_launch_fits = v.last_launch_fits;
  exe_hash_fits = v.exe_hash_fits;
  compat_rating_fits = v.compat_rating_fits;
  controls_fits = v.controls_fits;
  setup_is = v.setup_is;
  windows_version_is = h10;
  favorite_is = h11;
  has_shortcut_is = h13;
  perf_mode_is = v.perf_mode_is;
  virtual_desktop_is = h14;
  sandbox_enabled_is = h12;
  resolution_width_is = h15;
  resolution_height_is = h16;
  dpi_is = h17;
  permissions_is = v.permissions_is;
  install_size_is = v.install_size_is;
}

pub resized-IsValid :
    (w : Workspace) (width height dpi : ℕ) (vd : ℤ)
    → IsValid w
    → width < 2 ^ 32
    → height < 2 ^ 32
    → dpi < 2 ^ 32
    → IsValid (resized w width height dpi vd)
resized-IsValid w width height dpi vd v small_w small_h small_d =
    edited-IsValid v v.name_fits v.tags_fits v.runner_fits v.gfx_backend_fits v.audio_backend_fits
      v.dll_overrides_fits v.dependencies_fits v.executable_fits v.source_fits v.architecture_fits
      v.windows_version_is v.favorite_is v.sandbox_enabled_is v.has_shortcut_is (truth-IsInt vd)
      small_w small_h small_d

edit-Valid :
    (w : Workspace) (key : Bytes) (value : Option Bytes)
    → IsValid w
    → one_line (or_empty value) ≡ true
    → Valid (edit w key value)
unfolding edit
edit-Valid w key value v one =
    let text = λ (cap : ℕ) (h : 0 < cap). set_field-fits cap value h one in
    search
      (
        Valid-either,
        Valid-some,
        Valid-none,
        edited-IsValid v,
        text 64 (omega arith),
        text 256 (omega arith),
        text 32 (omega arith),
        text 512 (omega arith),
        text 16 (omega arith),
        flag-IsInt value,
        win_mode-IsInt value,
        v.name_fits,
        v.tags_fits,
        v.runner_fits,
        v.gfx_backend_fits,
        v.audio_backend_fits,
        v.dll_overrides_fits,
        v.dependencies_fits,
        v.executable_fits,
        v.source_fits,
        v.architecture_fits,
        v.windows_version_is,
        v.favorite_is,
        v.sandbox_enabled_is,
        v.has_shortcut_is,
        v.virtual_desktop_is,
        v.resolution_width_is,
        v.resolution_height_is,
        v.dpi_is,
      )
      depth 40

-- A text on one line for any key that `cellar_workspace_set` knows leaves the workspace valid.
pub edit-IsValid :
    (w v : Workspace) (key : Bytes) (value : Option Bytes)
    → IsValid w
    → one_line (or_empty value) ≡ true
    → edit w key value ≡ some v
    → IsValid v
unfolding Valid
edit-IsValid w v key value h one c =
    let changed : Valid (some v) = rw c at (edit-Valid w key value h one) in changed
