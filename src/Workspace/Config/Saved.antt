-- ===== src/Workspace/Config/Saved.antt =====
-- A workspace that was saved is the one that is loaded.
use fantastic_octo_meme.Prelude.{
  ℕ, ◌+◌, ◌%◌, ◌^◌, ◌<◌, ◌≡◌, ◌∙◌, true, length, ◌==◌, Bool-cases, inl, inr, refl, ap, arith,
}
use fantastic_octo_meme.Memory.{Bytes}
use fantastic_octo_meme.Text.{codes, clip, same_text}
use fantastic_octo_meme.Text.Decimal.{decimal}
use fantastic_octo_meme.Text.Number.{ℤ, pos, negsuc, print_int, IsInt}
use fantastic_octo_meme.Conf.{document, buffered, field_u64}
use fantastic_octo_meme.Conf.Back.{
  fits, total, AllFit, ◌&◌, fits-length, fits-wider, print_int-fits, decimal-fits, length-print_int,
  length-decimal, text_back, int_back, word_back, u64_back,
}
use fantastic_octo_meme.Workspace.{Workspace, setup_kind_name}
use fantastic_octo_meme.Workspace.Config.{label, comment, fields, content, from_text}

-- The texts stand on one line and fit into their arrays, and the numbers are of their types.
pub record IsValid (w : Workspace) : Type 0 where
  pub name_fits : fits 64 w.name ≡ true
  pub path_fits : fits 640 w.path ≡ true
  pub id_fits : fits 32 w.id ≡ true
  pub setup_label_fits : fits 24 w.setup_label ≡ true
  pub source_fits : fits 512 w.source ≡ true
  pub executable_fits : fits 512 w.executable ≡ true
  pub architecture_fits : fits 16 w.architecture ≡ true
  pub runner_fits : fits 64 w.runner ≡ true
  pub gfx_backend_fits : fits 32 w.gfx_backend ≡ true
  pub audio_backend_fits : fits 32 w.audio_backend ≡ true
  pub dll_overrides_fits : fits 512 w.dll_overrides ≡ true
  pub dependencies_fits : fits 256 w.dependencies ≡ true
  pub tags_fits : fits 256 w.tags ≡ true
  pub installed_at_fits : fits 40 w.installed_at ≡ true
  pub last_launch_fits : fits 40 w.last_launch ≡ true
  pub exe_hash_fits : fits 40 w.exe_hash ≡ true
  pub compat_rating_fits : fits 16 w.compat_rating ≡ true
  pub controls_fits : fits 128 w.controls ≡ true
  pub setup_is : IsInt w.setup
  pub windows_version_is : IsInt w.windows_version
  pub favorite_is : IsInt w.favorite
  pub has_shortcut_is : IsInt w.has_shortcut
  pub perf_mode_is : IsInt w.perf_mode
  pub virtual_desktop_is : IsInt w.virtual_desktop
  pub sandbox_enabled_is : IsInt w.sandbox_enabled
  pub resolution_width_is : w.resolution_width < 2 ^ 32
  pub resolution_height_is : w.resolution_height < 2 ^ 32
  pub dpi_is : w.dpi < 2 ^ 32
  pub permissions_is : w.permissions < 2 ^ 32
  pub install_size_is : w.install_size < 2 ^ 64

kind_name-fits : (k : ℤ) → fits 24 (setup_kind_name k) ≡ true
kind_name-fits (pos k) = ground arith
kind_name-fits (negsuc k) = refl

label-fits : (w : Workspace) → IsValid w → fits 24 (label w) ≡ true
label-fits w v = elim (Bool-cases (length w.setup_label == 0)) [
  | inl empty ↦ rw empty (kind_name-fits w.setup)
  | inr named ↦ rw named (v.setup_label_fits)
]

fields-AllFit : (w : Workspace) → IsValid w → AllFit 640 (fields w)
fields-AllFit w v =
    let wide = λ (cap : ℕ) (s : Bytes). fits-wider cap 640 s in
    let int = λ (z : ℤ). fits-wider 64 640 (print_int z) (omega arith) (print_int-fits z) in
    let nat = λ (n : ℕ). fits-wider 64 640 (decimal n) (omega arith) (decimal-fits n) in
    wide 64 w.name (omega arith) v.name_fits
    & v.path_fits
    & wide 32 w.id (omega arith) v.id_fits
    & int w.setup
    & wide 24 (label w) (omega arith) (label-fits w v)
    & wide 512 w.source (omega arith) v.source_fits
    & wide 512 w.executable (omega arith) v.executable_fits
    & wide 16 w.architecture (omega arith) v.architecture_fits
    & wide 64 w.runner (omega arith) v.runner_fits
    & int w.windows_version
    & wide 32 w.gfx_backend (omega arith) v.gfx_backend_fits
    & wide 32 w.audio_backend (omega arith) v.audio_backend_fits
    & wide 512 w.dll_overrides (omega arith) v.dll_overrides_fits
    & wide 256 w.dependencies (omega arith) v.dependencies_fits
    & wide 256 w.tags (omega arith) v.tags_fits
    & wide 40 w.installed_at (omega arith) v.installed_at_fits
    & wide 40 w.last_launch (omega arith) v.last_launch_fits
    & wide 40 w.exe_hash (omega arith) v.exe_hash_fits
    & wide 16 w.compat_rating (omega arith) v.compat_rating_fits
    & int w.favorite
    & int w.has_shortcut
    & nat w.install_size
    & int w.perf_mode
    & nat w.resolution_width
    & nat w.resolution_height
    & nat w.dpi
    & int w.virtual_desktop
    & nat w.permissions
    & wide 128 w.controls (omega arith) v.controls_fits
    & int w.sandbox_enabled
    & tt

comment-fits : (w : Workspace) → IsValid w → fits 640 (comment w) ≡ true
comment-fits w v = ground (arith, v.name_fits)

-- The file is shorter than the buffer.
length-fields : (w : Workspace) → IsValid w → length (comment w) + total (fields w) + 2 < 16384
length-fields w v = omega (
  arith,
  fits-length 64 w.name v.name_fits,
  fits-length 640 w.path v.path_fits,
  fits-length 32 w.id v.id_fits,
  length-print_int w.setup,
  fits-length 24 (label w) (label-fits w v),
  fits-length 512 w.source v.source_fits,
  fits-length 512 w.executable v.executable_fits,
  fits-length 16 w.architecture v.architecture_fits,
  fits-length 64 w.runner v.runner_fits,
  length-print_int w.windows_version,
  fits-length 32 w.gfx_backend v.gfx_backend_fits,
  fits-length 32 w.audio_backend v.audio_backend_fits,
  fits-length 512 w.dll_overrides v.dll_overrides_fits,
  fits-length 256 w.dependencies v.dependencies_fits,
  fits-length 256 w.tags v.tags_fits,
  fits-length 40 w.installed_at v.installed_at_fits,
  fits-length 40 w.last_launch v.last_launch_fits,
  fits-length 40 w.exe_hash v.exe_hash_fits,
  fits-length 16 w.compat_rating v.compat_rating_fits,
  length-print_int w.favorite,
  length-print_int w.has_shortcut,
  length-decimal w.install_size,
  length-print_int w.perf_mode,
  length-decimal w.resolution_width,
  length-decimal w.resolution_height,
  length-decimal w.dpi,
  length-print_int w.virtual_desktop,
  length-decimal w.permissions,
  fits-length 128 w.controls v.controls_fits,
  length-print_int w.sandbox_enabled,
)

-- What is loaded from the file of a workspace: its name and path are those of the call, and an
-- empty label has become the name of the kind.
abbrev pub renamed : Workspace → Bytes → Bytes → Workspace
renamed w name ws = record w { name = clip 64 name; path = clip 640 ws; setup_label = label w }

pub from_text-document :
    (w : Workspace) (name ws : Bytes)
    → IsValid w
    → from_text name ws (buffered 16384 (content w)) ≡ renamed w name ws
unfolding from_text same_text content
from_text-document w name ws v =
    let c = comment w in
    let fs = fields w in
    let one = comment-fits w v in
    let fit = fields-AllFit w v in
    let short = length-fields w v in
    let text = text_back 16384 640 c fs one refl fit short in
    let int = int_back 16384 640 c fs one refl fit short in
    let word = word_back 16384 640 c fs one refl fit short in
    let u64 = u64_back 16384 640 c fs one refl fit short in
    let permissions_back : field_u64 (buffered 16384 (document c fs)) (codes "permissions") 0
          % 2 ^ 32
        ≡ w.permissions =
      ap (λ n. n % 2 ^ 32)
        (u64 (codes "permissions") w.permissions 0 refl refl (omega (arith, v.permissions_is)))
      ∙ omega (arith, v.permissions_is) in
    λ i. record {
      name = clip 64 name;
      path = clip 640 ws;
      id = text (codes "id") w.id 32 refl refl v.id_fits i;
      setup = int (codes "setup") w.setup (pos 0) refl refl v.setup_is i;
      setup_label = text (codes "setup_label") (label w) 24 refl refl (label-fits w v) i;
      source = text (codes "source") w.source 512 refl refl v.source_fits i;
      executable = text (codes "executable") w.executable 512 refl refl v.executable_fits i;
      architecture = text (codes "architecture") w.architecture 16 refl refl v.architecture_fits i;
      runner = text (codes "runner") w.runner 64 refl refl v.runner_fits i;
      windows_version =
          int (codes "windows_version") w.windows_version (pos 2) refl refl v.windows_version_is i;
      gfx_backend = text (codes "gfx_backend") w.gfx_backend 32 refl refl v.gfx_backend_fits i;
      audio_backend =
          text (codes "audio_backend") w.audio_backend 32 refl refl v.audio_backend_fits i;
      dll_overrides =
          text (codes "dll_overrides") w.dll_overrides 512 refl refl v.dll_overrides_fits i;
      dependencies = text (codes "dependencies") w.dependencies 256 refl refl v.dependencies_fits i;
      tags = text (codes "tags") w.tags 256 refl refl v.tags_fits i;
      installed_at = text (codes "installed_at") w.installed_at 40 refl refl v.installed_at_fits i;
      last_launch = text (codes "last_launch") w.last_launch 40 refl refl v.last_launch_fits i;
      exe_hash = text (codes "exe_hash") w.exe_hash 40 refl refl v.exe_hash_fits i;
      compat_rating =
          text (codes "compat_rating") w.compat_rating 16 refl refl v.compat_rating_fits i;
      favorite = int (codes "favorite") w.favorite (pos 0) refl refl v.favorite_is i;
      has_shortcut =
          int (codes "has_shortcut") w.has_shortcut (pos 0) refl refl v.has_shortcut_is i;
      install_size = u64 (codes "install_size") w.install_size 0 refl refl v.install_size_is i;
      perf_mode = int (codes "perf_mode") w.perf_mode (pos 0) refl refl v.perf_mode_is i;
      resolution_width =
          word (codes "resolution_width") w.resolution_width (pos 1280) refl refl
            v.resolution_width_is i;
      resolution_height =
          word (codes "resolution_height") w.resolution_height (pos 720) refl refl
            v.resolution_height_is i;
      dpi = word (codes "dpi") w.dpi (pos 96) refl refl v.dpi_is i;
      virtual_desktop =
          int (codes "virtual_desktop") w.virtual_desktop (pos 0) refl refl v.virtual_desktop_is i;
      permissions = permissions_back i;
      controls = text (codes "controls") w.controls 128 refl refl v.controls_fits i;
      sandbox_enabled =
          int (codes "sandbox_enabled") w.sandbox_enabled (pos 1) refl refl v.sandbox_enabled_is i;
    }
