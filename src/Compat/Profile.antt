-- ===== src/Compat/Profile.antt =====
-- src/compat/profile.c and `cellar_app_profile_t` of include/cellar/compat.h: the configuration
-- that is remembered for an application.
pub mod Saved
use fantastic_octo_meme.Prelude.{
  ℕ, Bool, true, false, not, List, [], ◌∷◌, ◌++◌, length, ◌==◌, Option, none, some, if◌then◌else◌,
}
use fantastic_octo_meme.Memory.{Bytes}
use fantastic_octo_meme.Status.{Status, err_invalid_argument}
use fantastic_octo_meme.Text.{codes, clip}
use fantastic_octo_meme.Text.Number.{ℤ, pos, negsuc, print_int}
use fantastic_octo_meme.Conf.{Fields, document, buffered, field_text, field_atoi, or_empty}
use fantastic_octo_meme.Files.{FileSystem, stored}

-- `cellar_version_profile_t`.
pub record VersionProfile : Type 0 where
  pub mode : ℤ
  pub name : Bytes
  pub major : ℕ
  pub minor : ℕ
  pub build : ℕ
  pub sp_major : ℕ
  pub sp_minor : ℕ
  pub product_type : ℕ
  pub high_dpi_aware_by_default : ℕ
  pub prefer_utf8_codepage : ℕ
  pub touch_input_available : ℕ
  pub modern_threadpool : ℕ
  pub arm_translation : ℕ

abbrev pub win_7 : VersionProfile
win_7 = record {
  mode = pos 0;
  name = codes "Windows 7";
  major = 6;
  minor = 1;
  build = 7601;
  sp_major = 1;
  sp_minor = 0;
  product_type = 1;
  high_dpi_aware_by_default = 0;
  prefer_utf8_codepage = 0;
  touch_input_available = 0;
  modern_threadpool = 0;
  arm_translation = 0;
}

abbrev pub win_81 : VersionProfile
win_81 = record {
  mode = pos 1;
  name = codes "Windows 8.1";
  major = 6;
  minor = 3;
  build = 9600;
  sp_major = 0;
  sp_minor = 0;
  product_type = 1;
  high_dpi_aware_by_default = 0;
  prefer_utf8_codepage = 0;
  touch_input_available = 1;
  modern_threadpool = 1;
  arm_translation = 0;
}

abbrev pub win_10 : VersionProfile
win_10 = record {
  mode = pos 2;
  name = codes "Windows 10";
  major = 10;
  minor = 0;
  build = 19045;
  sp_major = 0;
  sp_minor = 0;
  product_type = 1;
  high_dpi_aware_by_default = 1;
  prefer_utf8_codepage = 1;
  touch_input_available = 1;
  modern_threadpool = 1;
  arm_translation = 0;
}

abbrev pub win_11 : VersionProfile
win_11 = record {
  mode = pos 3;
  name = codes "Windows 11";
  major = 10;
  minor = 0;
  build = 22631;
  sp_major = 0;
  sp_minor = 0;
  product_type = 1;
  high_dpi_aware_by_default = 1;
  prefer_utf8_codepage = 1;
  touch_input_available = 1;
  modern_threadpool = 1;
  arm_translation = 1;
}

-- A value of `cellar_version_mode_t` is the `int` that stands for it.
abbrev pub version_profile : ℤ → VersionProfile
version_profile (pos m) =
    if m == 0 then win_7 else if m == 1 then win_81 else if m == 3 then win_11 else win_10
version_profile (negsuc m) = win_10

pub record AppProfile : Type 0 where
  pub app_name : Bytes
  pub version_mode : ℤ
  pub gfx_backend : Bytes
  pub audio_backend : Bytes
  pub dll_overrides : Bytes
  pub low_latency_sync : ℤ
  pub shader_cache_enabled : ℤ
  pub last_good : ℤ

-- The lines of the file.
abbrev pub comment : AppProfile → Bytes
comment p = codes " Cellar compatibility profile for " ++ p.app_name

abbrev pub fields : AppProfile → Fields
fields p =
    (codes "version_mode", print_int p.version_mode)
    ∷ (codes "gfx_backend", p.gfx_backend)
    ∷ (codes "audio_backend", p.audio_backend)
    ∷ (codes "dll_overrides", p.dll_overrides)
    ∷ (codes "low_latency_sync", print_int p.low_latency_sync)
    ∷ (codes "shader_cache_enabled", print_int p.shader_cache_enabled)
    ∷ (codes "last_good", print_int p.last_good)
    ∷ []

-- `cellar_prefix_dir`, with `getenv`.
abbrev pub prefix_dir : (Bytes → Option Bytes) → Bytes
prefix_dir getenv =
    let home = or_empty (getenv (codes "HOME")) in
    let env = or_empty (getenv (codes "CELLAR_PREFIX")) in
    if not (length env == 0)
    then clip 1024 env
    else clip 1024 ((if length home == 0 then codes "." else home) ++ codes "/.cellar/prefixes")

-- What the loader makes of the text of a file.
unfoldable pub from_text : Bytes → Bytes → AppProfile
from_text app_name buf = record {
  app_name = clip 128 app_name;
  version_mode = field_atoi buf (codes "version_mode") (pos 2);
  gfx_backend = field_text buf (codes "gfx_backend") 32;
  audio_backend = field_text buf (codes "audio_backend") 32;
  dll_overrides = field_text buf (codes "dll_overrides") 512;
  low_latency_sync = field_atoi buf (codes "low_latency_sync") (pos 0);
  shader_cache_enabled = field_atoi buf (codes "shader_cache_enabled") (pos 0);
  last_good = field_atoi buf (codes "last_good") (pos 0);
}

-- The path that the loader opens.
abbrev pub load_path : Bytes → Bytes → Bytes
load_path prefix_dir app_name = clip 1152 (prefix_dir ++ b'/' ∷ (app_name ++ codes "/profile.conf"))

-- The directory and the path that are written.
abbrev pub save_dir : Bytes → Bytes → Bytes
save_dir prefix_dir app_name = clip 1024 (prefix_dir ++ b'/' ∷ app_name)

abbrev pub save_path : Bytes → Bytes → Bytes
save_path prefix_dir app_name = clip 1152 (save_dir prefix_dir app_name ++ codes "/profile.conf")

module _ {F : Type 0} (os : FileSystem F) where
  open os use {read, write, mkdir}

  -- `cellar_profile_save`, with null pointers as `none`. The results of `mkdir` are not looked at.
  unfoldable pub save : F → Option Bytes → Option AppProfile → Status × F
  save fs none p = (err_invalid_argument, fs)
  save fs (some prefix_dir) none = (err_invalid_argument, fs)
  save fs (some prefix_dir) (some p) =
      let one = (mkdir fs prefix_dir).0 in
      let two = (mkdir one (save_dir prefix_dir p.app_name)).0 in
      if length p.app_name == 0
      then (err_invalid_argument, fs)
      else stored two
          (write two (save_path prefix_dir p.app_name) (document (comment p) (fields p)))

  -- `cellar_profile_load`: the profile, or the status of an error.
  unfoldable pub load : F → Option Bytes → Option Bytes → Status × Option AppProfile
  unfolding from_text
  load fs none name = (err_invalid_argument, none)
  load fs (some prefix_dir) none = (err_invalid_argument, none)
  load fs (some prefix_dir) (some name) = elim (read fs (load_path prefix_dir name)) [
    | none ↦ (err_invalid_argument, none)
    | some content ↦ (Status.ok, some (from_text name (buffered 8192 content)))
  ]

  -- `cellar_profile_mark_last_good`.
  unfoldable pub mark_last_good : F → Option Bytes → Option AppProfile → Status × F
  unfolding save
  mark_last_good fs prefix_dir none = (err_invalid_argument, fs)
  mark_last_good fs prefix_dir (some p) = save fs prefix_dir (some (record p { last_good = pos 1 }))
