-- ===== src/Prefix.antt =====
-- src/prefix/prefix.c and include/cellar/prefix.h: the bottles, folders of a root with a file
-- `prefix.conf`. `is_dir` is `stat` with `S_ISDIR`.
pub mod Config
pub mod Settings
pub mod Archive
use fantastic_octo_meme.Prelude.{ℕ, Bool, [], Option, none, some}
use fantastic_octo_meme.Memory.{Bytes}
use fantastic_octo_meme.Text.{codes}
use fantastic_octo_meme.Text.Number.{ℤ}
use fantastic_octo_meme.Conf.{or_empty}
use fantastic_octo_meme.Workspace.{join}

-- `cellar_prefix_info_t`.
pub record PrefixInfo : Type 0 where
  pub name : Bytes
  pub path : Bytes
  pub version_mode : ℤ
  pub gfx : Bytes
  pub audio : Bytes
  pub arch : Bytes
  pub runner : Bytes
  pub exists : Bool

-- `cellar_prefix_path`, into an array of `n` bytes.
abbrev pub prefix_path : ℕ → Option Bytes → Option Bytes → Bytes
prefix_path n none name = join n (codes ".") (or_empty name)
prefix_path n (some root) name = join n root (or_empty name)

-- The file of a bottle.
abbrev pub conf_path : Bytes → Bytes
conf_path bottle = join 640 bottle (codes "prefix.conf")
