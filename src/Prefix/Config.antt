-- ===== src/Prefix/Config.antt =====
-- `prefix.conf` as src/prefix/prefix.c writes and reads it, and the making of a bottle. The function
-- `valid_name` of this file is the one of src/workspace/workspace.c.
pub mod Created
use fantastic_octo_meme.Prelude.{
  ℕ, zero, suc, ◌+◌, Bool, true, false, not, ◌&&◌, ◌||◌, [], ◌∷◌, ◌++◌, take, length, get_or, ◌==◌,
  Option, none, some, if◌then◌else◌,
}
use fantastic_octo_meme.Memory.{Bytes}
use fantastic_octo_meme.Status.{Status, err_invalid_argument, is_ok}
use fantastic_octo_meme.Text.{codes, clip, same_folded}
use fantastic_octo_meme.Text.Number.{ℤ, pos, atoi, print_int}
use fantastic_octo_meme.Conf.{Fields, render, line_of, buffered}
use fantastic_octo_meme.Files.{FileSystem, stored, mkdir_p}
use fantastic_octo_meme.Shell.{Shell, shell_init, ensure_dirs}
use fantastic_octo_meme.Workspace.{join, valid_name}
use fantastic_octo_meme.Prefix.{PrefixInfo, prefix_path, conf_path}

-- A null pointer stands for the default.
abbrev pub given_or : Bytes → Option Bytes → Bytes
given_or default none = default
given_or default (some s) = s

-- The lines that `write_conf_full` writes.
abbrev pub conf_fields : ℤ → Option Bytes → Option Bytes → Option Bytes → Option Bytes → Fields
conf_fields mode gfx audio arch runner =
    (codes "version_mode", print_int mode)
    ∷ (codes "gfx", given_or (codes "Vulkan") gfx)
    ∷ (codes "audio", given_or (codes "ALSA") audio)
    ∷ (codes "arch", given_or (codes "win64") arch)
    ∷ (codes "runner", given_or (codes "stable") runner)
    ∷ []

-- The text at the start, if it is there.
abbrev pub behind : Bytes → Bytes → Option Bytes
behind [] s = some s
behind (k ∷ key) [] = none
behind (k ∷ key) (c ∷ s) = if k == c then behind key s else none

-- `strstr(s, key)`: what stands behind the first occurrence.
unfoldable pub find_behind : Bytes → Bytes → Option Bytes
find_behind key [] = behind key []
find_behind key (c ∷ s) =
    let later = find_behind key s in elim (behind key (c ∷ s)) [ some t ↦ some t | none ↦ later ]

-- A text up to the end of its line in an array of `n` bytes.
abbrev pub kept_line : Bytes → ℕ → Option Bytes → Bytes
kept_line default n none = default
kept_line default n (some t) = clip n (line_of t)

abbrev pub mode_at : ℤ → Option Bytes → ℤ
mode_at default none = default
mode_at default (some t) = atoi t

-- What `read_conf` makes of the text of the file.
unfoldable pub conf_from : PrefixInfo → Bytes → PrefixInfo
unfolding find_behind
conf_from out buf = record out {
  version_mode = mode_at out.version_mode (find_behind (codes "version_mode=") buf);
  gfx = kept_line out.gfx 32 (find_behind (codes "gfx=") buf);
  audio = kept_line out.audio 32 (find_behind (codes "audio=") buf);
  arch = kept_line (codes "win64") 8 (find_behind (codes "arch=") buf);
  runner = kept_line (codes "stable") 32 (find_behind (codes "runner=") buf);
}

-- Which of the two architectures the argument of `cellar_prefix_create_arch` means.
abbrev pub chosen_arch : Option Bytes → Bytes
chosen_arch none = codes "win64"
chosen_arch (some arch) =
    let first = get_or arch 0 0 in
    let a = if first == b'w' || first == b'W' then arch else codes "win64" in
    if same_folded (take 5 a) (codes "win32") then codes "win32" else codes "win64"

-- Whether `cellar_prefix_info` finds the bottle.
abbrev pub found : Status × Option PrefixInfo → Bool
found (st, none) = false
found (st, some info) = is_ok st && info.exists

module _ {F : Type 0} (os : FileSystem F) where
  -- `write_conf_full`.
  unfoldable pub write_conf_full :
      F → Bytes → ℤ → Option Bytes → Option Bytes → Option Bytes → Option Bytes → Status × F
  write_conf_full fs bottle mode gfx audio arch runner =
      stored fs (os.write fs (conf_path bottle) (render (conf_fields mode gfx audio arch runner)))

  -- `read_conf`: a file that cannot be opened leaves the structure as it is.
  unfoldable pub read_conf : F → Bytes → PrefixInfo → PrefixInfo
  unfolding conf_from
  read_conf fs bottle out = elim (os.read fs (conf_path bottle)) [
    | none ↦ out
    | some bytes ↦ conf_from out (buffered 1024 bytes)
  ]

  -- `write_conf`; `junk` is what the structure holds before `read_conf`.
  unfoldable pub write_conf : PrefixInfo → F → Bytes → ℤ → Option Bytes → Option Bytes → Status × F
  unfolding write_conf_full read_conf
  write_conf junk fs bottle mode gfx audio =
      let info = read_conf fs bottle junk in
      write_conf_full fs bottle mode gfx audio (some info.arch) (some info.runner)

  -- The two folders behind those of the shell, and the file.
  abbrev pub finished : F → Bytes → Option Bytes → Status × F
  finished fs bottle arch =
      let fs1 = (mkdir_p os fs (join 700 bottle (codes "runtime"))).0 in
      let fs2 = (mkdir_p os fs1 (join 700 bottle (codes "uninstall"))).0 in
      write_conf_full fs2 bottle (pos 2) (some (codes "Vulkan")) (some (codes "ALSA"))
        (some (chosen_arch arch)) (some (codes "stable"))

  -- The folders of the shell in a bottle that is there.
  abbrev pub with_shell : F → Shell → Bytes → Option Bytes → (Status × F) × Shell
  with_shell fs sh bottle arch =
      let shell = shell_init sh (some bottle) in
      let dirs = ensure_dirs os fs shell.1 in
      if is_ok shell.0
      then (
        if is_ok dirs.0 then finished dirs.1 bottle arch else (err_invalid_argument, dirs.1),
        shell.1,
      )
      else ((err_invalid_argument, fs), shell.1)

  -- `cellar_prefix_create_arch` and `cellar_prefix_create`.
  unfoldable pub create_arch :
      F → Shell → Option Bytes → Option Bytes → Option Bytes → (Status × F) × Shell
  unfolding write_conf_full
  create_arch fs sh none name arch = ((err_invalid_argument, fs), sh)
  create_arch fs sh (some root) name arch =
      let fs1 = (mkdir_p os fs root).0 in
      let bottle = prefix_path 640 (some root) name in
      let made = mkdir_p os fs1 bottle in
      if valid_name name
      then (if made.1
          then with_shell made.0 sh bottle arch
          else ((err_invalid_argument, made.0), sh))
      else ((err_invalid_argument, fs), sh)

  abbrev pub prefix_create : F → Shell → Option Bytes → Option Bytes → (Status × F) × Shell
  prefix_create fs sh root name = create_arch fs sh root name (some (codes "win64"))

  module _ (is_dir : F → Bytes → Bool) where
    -- The structure before `read_conf`.
    abbrev pub named : F → Bytes → Bytes → PrefixInfo
    named fs root name = record {
      name = clip 64 name;
      path = clip 512 (prefix_path 640 (some root) (some name));
      version_mode = pos 0;
      gfx = [];
      audio = [];
      arch = [];
      runner = [];
      exists = is_dir fs (prefix_path 640 (some root) (some name));
    }

    -- `cellar_prefix_info`.
    unfoldable pub prefix_info : F → Option Bytes → Option Bytes → Status × Option PrefixInfo
    unfolding read_conf
    prefix_info fs none name = (err_invalid_argument, none)
    prefix_info fs (some root) none = (err_invalid_argument, none)
    prefix_info fs (some root) (some name) =
        let bottle = prefix_path 640 (some root) (some name) in
        let out = named fs root name in
        if valid_name (some name)
        then (Status.ok, some (if out.exists then read_conf fs bottle out else out))
        else (err_invalid_argument, none)

    -- `cellar_prefix_set_config`.
    unfoldable pub set_config :
        PrefixInfo → F → Option Bytes → Option Bytes → ℤ → Option Bytes → Option Bytes → Status × F
    unfolding prefix_info write_conf
    set_config junk fs root name mode gfx audio =
        if found (prefix_info fs root name)
        then write_conf junk fs (prefix_path 640 root name) mode gfx audio
        else (err_invalid_argument, fs)
