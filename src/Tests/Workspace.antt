-- ===== src/Tests/Workspace.antt =====
-- src/workspace/workspace.c on a small workspace.
use fantastic_octo_meme.Prelude.{subst, false, ◌≡◌, refl, ap, arith, true, [], ◌∷◌, some}
use fantastic_octo_meme.Memory.{Bytes}
use fantastic_octo_meme.Status.{Status, err_invalid_argument}
use fantastic_octo_meme.Util.{joined}
use fantastic_octo_meme.Text.{codes, same_text, same_folded}
use fantastic_octo_meme.Text.Number.{pos}
use fantastic_octo_meme.Conf.{or_empty}
use fantastic_octo_meme.Conf.Back.{fits}
use fantastic_octo_meme.Files.{mkdir_p, mkdirs_from}
use fantastic_octo_meme.Workspace.{Workspace, valid_name, ws_dir, win_mode_from_name, contains_ci}
use fantastic_octo_meme.Workspace.Config.{content, app_conf, load, save}
use fantastic_octo_meme.Workspace.Config.Saved.{IsValid}
use fantastic_octo_meme.Workspace.Config.RoundTrip.{load-save, reloaded}
use fantastic_octo_meme.Workspace.Config.Loaded.{load-IsValid}
use fantastic_octo_meme.Workspace.Edit.{edit, resized, then_save, update, set, set_resolution}
use fantastic_octo_meme.Workspace.Edit.Keys.{
  shown, meant, without, tags, relabelled, one_of, all_keys,
}
use fantastic_octo_meme.Workspace.Edit.Changes.{load-set, set_refused}
use fantastic_octo_meme.Tests.Files.{Written, disk, no_variables}

abbrev root : Bytes
root = codes "/r"

abbrev name : Bytes
name = codes "game"

name_valid : valid_name (some name) ≡ true
unfolding same_text
name_valid = refl

abbrev sample : Workspace
sample = record {
  name = name;
  path = ws_dir (some root) (some name);
  id = codes "0042beef";
  setup = pos 1;
  setup_label = [];
  source = codes "/tmp/setup.msi";
  executable = codes "C:\\game.exe";
  architecture = codes "x86-64";
  runner = codes "wine";
  windows_version = pos 3;
  gfx_backend = codes "Vulkan";
  audio_backend = codes "ALSA";
  dll_overrides = [];
  dependencies = codes "vcruntime,dotnet";
  tags = codes "rpg";
  installed_at = codes "now";
  last_launch = [];
  exe_hash = [];
  compat_rating = codes "HIGH";
  favorite = pos 1;
  has_shortcut = pos 0;
  install_size = 5000000000;
  perf_mode = pos 2;
  resolution_width = 1280;
  resolution_height = 720;
  dpi = 96;
  virtual_desktop = pos 0;
  permissions = 3;
  controls = codes "default";
  sandbox_enabled = pos 1;
}

-- The sample with another name, label and tags.
abbrev sample_with : Bytes → Bytes → Bytes → Workspace
sample_with n label t = record sample { name = n; setup_label = label; tags = t }

sample_with-IsValid :
    (n label t : Bytes)
    → fits 64 n ≡ true
    → fits 24 label ≡ true
    → fits 256 t ≡ true
    → IsValid (sample_with n label t)
unfolding joined
sample_with-IsValid n label t name_ok label_ok tags_ok = record {
  name_fits = name_ok;
  path_fits = refl;
  id_fits = refl;
  setup_label_fits = label_ok;
  source_fits = refl;
  executable_fits = refl;
  architecture_fits = refl;
  runner_fits = refl;
  gfx_backend_fits = refl;
  audio_backend_fits = refl;
  dll_overrides_fits = refl;
  dependencies_fits = refl;
  tags_fits = tags_ok;
  installed_at_fits = refl;
  last_launch_fits = refl;
  exe_hash_fits = refl;
  compat_rating_fits = refl;
  controls_fits = refl;
  setup_is = omega arith;
  windows_version_is = omega arith;
  favorite_is = omega arith;
  has_shortcut_is = omega arith;
  perf_mode_is = omega arith;
  virtual_desktop_is = omega arith;
  sandbox_enabled_is = omega arith;
  resolution_width_is = omega arith;
  resolution_height_is = omega arith;
  dpi_is = omega arith;
  permissions_is = omega arith;
  install_size_is = omega arith;
}

sample-IsValid : IsValid sample
sample-IsValid = sample_with-IsValid name [] (codes "rpg") refl refl refl

-- The files after the sample was saved.
abbrev files_after : Workspace → Written → Written
files_after w f = (app_conf w.path, content w) ∷ f

sample_saves : (save disk no_variables [] sample).0 ≡ (Status.ok, files_after sample [])
unfolding save joined mkdir_p mkdirs_from
sample_saves = refl

load-save_example :
    load disk (files_after sample []) (some root) (some name)
    ≡ (Status.ok, some (reloaded sample name))
load-save_example =
    load-save disk no_variables root name name_valid [] (files_after sample []) sample
      sample-IsValid refl sample_saves

abbrev saved : Written
saved = files_after sample []

-- The sample as it is loaded.
abbrev loaded : Workspace
loaded = reloaded sample name

loads : load disk saved (some root) (some name) ≡ (Status.ok, some loaded)
loads =
    load-save disk no_variables root name name_valid [] saved sample sample-IsValid refl
      sample_saves

load-IsValid_example : IsValid loaded
load-IsValid_example = load-IsValid disk saved root name loaded refl refl loads

abbrev wide : Workspace
wide = resized loaded 1920 1080 120 (pos 5)

wide_saves :
    set_resolution disk no_variables saved (some root) (some name) 1920 1080 120 (pos 5)
    ≡ (Status.ok, files_after wide saved)
unfolding set_resolution update save joined mkdir_p mkdirs_from
wide_saves =
    ap (then_save disk no_variables saved (λ w. some (resized w 1920 1080 120 (pos 5)))) loads

abbrev tagged : Workspace
tagged = record loaded { tags = codes "rpg,new" }

tagged_saves :
    set disk no_variables saved
      (some root)
      (some name)
      (some (codes "tags"))
      (some (codes "rpg,new"))
    ≡ (Status.ok, files_after tagged saved)
unfolding set edit same_text update save joined mkdir_p mkdirs_from
tagged_saves =
    ap (then_save disk no_variables saved (λ w. edit w (codes "tags") (some (codes "rpg,new"))))
      loads

load-set_example :
    (u : Workspace) × (load disk (files_after tagged saved) (some root) (some name)
      ≡ (Status.ok, some u))
    × (shown tags u ≡ meant tags (some (codes "rpg,new")))
    × (without tags u ≡ without tags (relabelled loaded))
load-set_example =
    load-set disk no_variables root name saved (files_after tagged saved) loaded tags
      (some (codes "rpg,new")) refl refl refl loads tagged_saves

colour_unknown :
    (w : Workspace) (k : Bytes)
    → load disk saved (some root) (some name) ≡ (Status.ok, some w)
    → some (codes "colour") ≡ some k
    → one_of k all_keys ≡ false
unfolding same_text
colour_unknown w k e same = subst (λ k. one_of k all_keys ≡ false) (ap or_empty same) refl

set_refused_example :
    set disk no_variables saved (some root) (some name) (some (codes "colour")) (some (codes "red"))
    ≡ (err_invalid_argument, saved)
set_refused_example =
    set_refused disk no_variables root name saved (some (codes "colour")) (some (codes "red"))
      colour_unknown

win_mode_runs : win_mode_from_name (some (codes "Windows 8.1")) ≡ pos 1
unfolding same_folded
win_mode_runs = refl

contains_ci_runs : contains_ci (codes "Setup-DirectX.exe") (codes "directx") ≡ true
contains_ci_runs = refl
