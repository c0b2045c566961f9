-- ===== src/Workspace.antt =====
-- src/workspace/workspace.c and include/cellar/workspace.h: the record of an application, its
-- names, its paths and its defaults. An enumeration is the `int` that stands for its value.
pub mod Config
pub mod Edit
use fantastic_octo_meme.Prelude.{
  ℕ, zero, suc, ◌+◌, ◌-◌, ◌*◌, ◌/◌, ◌%◌, Bool, true, false, not, ◌&&◌, ◌||◌, List, [], ◌∷◌, ◌++◌,
  length, leb, ◌==◌, Option, none, some, if◌then◌else◌,
}
use fantastic_octo_meme.Memory.{Bytes}
use fantastic_octo_meme.Util.{joined}
use fantastic_octo_meme.Text.{codes, clip, lacks, lower, same_text, same_folded}
use fantastic_octo_meme.Text.Number.{ℤ, pos, negsuc}
use fantastic_octo_meme.Conf.{or_empty}
use fantastic_octo_meme.Compat.Profile.{prefix_dir}

-- `cellar_workspace_t`.
pub record Workspace : Type 0 where
  pub name : Bytes
  pub path : Bytes
  pub id : Bytes
  pub setup : ℤ
  pub setup_label : Bytes
  pub source : Bytes
  pub executable : Bytes
  pub architecture : Bytes
  pub runner : Bytes
  pub windows_version : ℤ
  pub gfx_backend : Bytes
  pub audio_backend : Bytes
  pub dll_overrides : Bytes
  pub dependencies : Bytes
  pub tags : Bytes
  pub installed_at : Bytes
  pub last_launch : Bytes
  pub exe_hash : Bytes
  pub compat_rating : Bytes
  pub favorite : ℤ
  pub has_shortcut : ℤ
  pub install_size : ℕ
  pub perf_mode : ℤ
  pub resolution_width : ℕ
  pub resolution_height : ℕ
  pub dpi : ℕ
  pub virtual_desktop : ℤ
  pub permissions : ℕ
  pub controls : Bytes
  pub sandbox_enabled : ℤ

abbrev pub valid_name : Option Bytes → Bool
valid_name none = false
valid_name (some s) =
    not (length s == 0)
    && lacks b'/' s
    && lacks 92 s
    && not (same_text s (codes "."))
    && not (same_text s (codes ".."))

-- What `cellar_path_join` stores in an array of `n` bytes.
abbrev pub join : ℕ → Bytes → Bytes → Bytes
join n a b = clip n (joined a b)

-- `ws_dir` with an array of 640 bytes.
abbrev pub ws_dir : Option Bytes → Option Bytes → Bytes
ws_dir none name = join 640 (codes ".") (or_empty name)
ws_dir (some root) name = join 640 root (or_empty name)

-- `set_field`.
abbrev pub set_field : ℕ → Option Bytes → Bytes
set_field cap val = clip cap (or_empty val)

abbrev pub win_mode_from_name : Option Bytes → ℤ
win_mode_from_name none = pos 2
win_mode_from_name (some s) =
    if length s == 0
    then pos 2
    else if same_folded s (codes "win7") || same_folded s (codes "windows 7")
    then pos 0
    else if same_folded s (codes "win81") || same_folded s (codes "windows 8.1")
    then pos 1
    else if same_folded s (codes "win11") || same_folded s (codes "windows 11")
    then pos 3
    else pos 2

-- Whether the value of an enumeration is the one that the number stands for.
abbrev pub is_case : ℤ → ℕ → Bool
is_case (pos n) k = n == k
is_case (negsuc n) k = false

abbrev pub win_mode_name : ℤ → Bytes
win_mode_name m =
    if is_case m 0
    then codes "win7"
    else if is_case m 1
    then codes "win81"
    else if is_case m 3
    then codes "win11"
    else codes "win10"

abbrev pub setup_kind_name : ℤ → Bytes
setup_kind_name k =
    if is_case k 1
    then codes "msi"
    else if is_case k 2
    then codes "import"
    else if is_case k 3
    then codes "portable"
    else codes "exe"

abbrev pub perf_mode_name : ℤ → Bytes
perf_mode_name m =
    if is_case m 1
    then codes "battery-saver"
    else if is_case m 2
    then codes "performance"
    else if is_case m 3
    then codes "custom"
    else codes "balanced"

abbrev pub control_kind_name : ℤ → Bytes
control_kind_name k =
    if is_case k 1
    then codes "gamepad"
    else if is_case k 2
    then codes "touch"
    else if is_case k 3
    then codes "gamepad+touch"
    else codes "none"

abbrev pub profile_trust_name : ℤ → Bytes
profile_trust_name t =
    if is_case t 1
    then codes "official"
    else if is_case t 2
    then codes "community"
    else if is_case t 3
    then codes "experimental"
    else codes "local"

abbrev pub arch_from_machine : ℕ → Bytes
arch_from_machine m =
    if m == 332
    then codes "x86"
    else if m == 34404
    then codes "x86-64"
    else if m == 448
    then codes "arm"
    else if m == 43620
    then codes "arm64"
    else codes "unknown"

-- Whether the needle stands at the start, up to case: the inner loop of `contains_ci`.
abbrev pub starts_ci : Bytes → Bytes → Bool
starts_ci hay [] = true
starts_ci [] (n ∷ needle) = false
starts_ci (c ∷ hay) (n ∷ needle) = lower c == lower n && starts_ci hay needle

-- The outer loop.
abbrev pub scan_ci : Bytes → Bytes → Bool
scan_ci [] needle = starts_ci [] needle
scan_ci (c ∷ hay) needle = starts_ci (c ∷ hay) needle || scan_ci hay needle

abbrev pub contains_ci : Bytes → Bytes → Bool
contains_ci hay needle =
    not (length needle == 0) && leb (length needle) (length hay) && scan_ci hay needle

-- `cellar_workspace_root`, with `getenv`.
abbrev pub workspace_root : (Bytes → Option Bytes) → Bytes
workspace_root getenv =
    let env = or_empty (getenv (codes "WINALTOR_ROOT")) in
    if not (length env == 0) then clip 1024 env else prefix_dir getenv
