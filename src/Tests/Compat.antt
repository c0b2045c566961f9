-- ===== src/Tests/Compat.antt =====
-- src/compat/profile.c on a small profile.
use fantastic_octo_meme.Prelude.{◌≡◌, refl, arith, [], ◌∷◌, some}
use fantastic_octo_meme.Status.{Status}
use fantastic_octo_meme.Text.{codes}
use fantastic_octo_meme.Text.Number.{pos, negsuc}
use fantastic_octo_meme.Conf.{document}
use fantastic_octo_meme.Compat.Profile.{
  AppProfile, comment, fields, save_path, mark_last_good, version_profile, win_10, prefix_dir,
}
use fantastic_octo_meme.Compat.Profile.Saved.{IsValid}
use fantastic_octo_meme.Tests.Files.{Written, disk, no_variables}

abbrev profile : AppProfile
profile = record {
  app_name = codes "game.exe";
  version_mode = pos 1;
  gfx_backend = codes "OpenGL";
  audio_backend = codes "PipeWire";
  dll_overrides = codes "d3d9=native,winmm=bundled";
  low_latency_sync = pos 1;
  shader_cache_enabled = negsuc 4;
  last_good = pos 0;
}

profile-IsValid : IsValid profile
profile-IsValid = record {
  name = refl;
  gfx = refl;
  audio = refl;
  dlls = refl;
  mode = omega arith;
  sync = omega arith;
  shaders = omega arith;
  good = omega arith;
}

abbrev good : AppProfile
good = record profile { last_good = pos 1 }

abbrev files : Written
files = (save_path (codes "/p") (codes "game.exe"), document (comment good) (fields good)) ∷ []

profile_saves : mark_last_good disk [] (some (codes "/p")) (some profile) ≡ (Status.ok, files)
unfolding mark_last_good
profile_saves = refl

version_profile_runs : version_profile (pos 9) ≡ win_10
version_profile_runs = refl

prefix_dir_runs : prefix_dir no_variables ≡ codes "./.cellar/prefixes"
prefix_dir_runs = refl
