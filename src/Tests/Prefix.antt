-- ===== src/Tests/Prefix.antt =====
-- src/prefix/prefix.c on a small bottle.
use fantastic_octo_meme.Prelude.{
  ℕ, Bool, ◌≡◌, refl, arith, true, false, [], ◌∷◌, ◌++◌, some, if◌then◌else◌,
}
use fantastic_octo_meme.Memory.{Bytes}
use fantastic_octo_meme.Status.{Status, err_invalid_argument}
use fantastic_octo_meme.Util.{joined}
use fantastic_octo_meme.Text.{codes, clip, same_text, same_folded}
use fantastic_octo_meme.Text.Number.{pos}
use fantastic_octo_meme.Text.Decimal.{decimal, digits_from}
use fantastic_octo_meme.Conf.{field_at, line_of}
use fantastic_octo_meme.Files.{mkdir_p}
use fantastic_octo_meme.Shell.{uninit, shell_init, ensure_dirs}
use fantastic_octo_meme.Prefix.{PrefixInfo, prefix_path, conf_path}
use fantastic_octo_meme.Prefix.Config.{
  create_arch, prefix_info, set_config, named, find_behind, prefix_create,
}
use fantastic_octo_meme.Prefix.Config.Created.{as_made, info-create}
use fantastic_octo_meme.Prefix.Settings.{get_setting, set_setting, rebuilt, replaced, lines_of}
use fantastic_octo_meme.Prefix.Settings.Kept.{get-set}
use fantastic_octo_meme.Prefix.Settings.Forgotten.{config_forgets}
use fantastic_octo_meme.Prefix.Archive.{
  Entries, nil, cons, file, folder, walk, entry, entries, wr_u32, prefix_backup, prefix_restore,
}
use fantastic_octo_meme.Prefix.Archive.Ends.{restore_ends}
use fantastic_octo_meme.Prefix.Archive.Stored.{left_at, store_all}
use fantastic_octo_meme.Prefix.Archive.Restored.{
  restore_cut_off, restore_refuses_dots, restore-backup,
}
use fantastic_octo_meme.Tests.Files.{disk-writes, disk-other, disk-mkdir, Written, disk}

abbrev root : Bytes
root = codes "/r"

abbrev name : Bytes
name = codes "games"

abbrev everywhere : Written → Bytes → Bool
everywhere fs path = true

-- The file system with one file.
abbrev with_conf : Bytes → Written
with_conf text = (conf_path (prefix_path 640 (some root) (some name)), text) ∷ []

abbrev made_conf : Bytes
made_conf = codes "version_mode=2\ngfx=Vulkan\naudio=ALSA\narch=win32\nrunner=stable\n"

create_runs :
    create_arch disk [] uninit (some root) (some name) (some (codes "Win32x"))
    ≡ ((Status.ok, with_conf made_conf), (shell_init uninit (some (codes "/r/games"))).1)
unfolding create_arch same_text joined mkdir_p shell_init ensure_dirs same_folded decimal
    digits_from
create_runs = refl

info-create_example : prefix_info disk everywhere (with_conf made_conf) (some root) (some name) ≡ (
  Status.ok,
  some (as_made (some (codes "Win32x")) (named disk everywhere (with_conf made_conf) root name)),
)
info-create_example =
    info-create disk everywhere [] (with_conf made_conf) uninit
      (shell_init uninit (some (codes "/r/games"))).1 root name (some (codes "Win32x")) create_runs
      refl

-- A setting that is new, and one that is replaced.
abbrev with_esync : Bytes
with_esync = codes "version_mode=2\ngfx=Vulkan\naudio=ALSA\narch=win32\nrunner=stable\nesync=1\n"

set_runs :
    set_setting disk everywhere
      (with_conf made_conf)
      (some root)
      (some name)
      (some (codes "esync"))
      (some (codes "1"))
    ≡ (
      Status.ok,
      (conf_path (prefix_path 640 (some root) (some name)), with_esync) ∷ with_conf made_conf,
    )
unfolding set_setting same_text joined lines_of replaced field_at
set_runs = refl

esync_set :
    get_setting disk everywhere
      (with_conf with_esync)
      (some root)
      (some name)
      (some (codes "esync"))
      8
    ≡ (Status.ok, some (codes "1"))
unfolding get_setting same_text joined lines_of field_at
esync_set = refl

get-set_example :
    get_setting disk everywhere
      ((conf_path (prefix_path 640 (some root) (some name)), with_esync) ∷ with_conf made_conf)
      (some root)
      (some name)
      (some (codes "arch"))
      16
    ≡ (if same_text (codes "arch") (codes "esync")
        then (Status.ok, some (clip 16 (codes "1")))
        else get_setting disk everywhere
            (with_conf made_conf)
            (some root)
            (some name)
            (some (codes "arch"))
            16)
unfolding prefix_info same_text joined rebuilt lines_of replaced field_at
get-set_example =
    get-set disk everywhere (with_conf made_conf)
      ((conf_path (prefix_path 640 (some root) (some name)), with_esync) ∷ with_conf made_conf)
      (some root) (some name) (codes "esync") (codes "arch") (codes "1") made_conf 16 set_runs refl
      refl (omega arith) refl refl refl refl (omega arith) (omega arith) (omega arith)

abbrev no_info : PrefixInfo
no_info = record {
  name = [];
  path = [];
  version_mode = pos 0;
  gfx = [];
  audio = [];
  arch = [];
  runner = [];
  exists = false;
}

config_runs :
    set_config disk everywhere no_info
      (with_conf with_esync)
      (some root)
      (some name)
      (pos 2)
      (some (codes "Vulkan"))
      (some (codes "ALSA"))
    ≡ (
      Status.ok,
      (conf_path (prefix_path 640 (some root) (some name)), made_conf) ∷ with_conf with_esync,
    )
unfolding set_config same_text joined decimal digits_from line_of
config_runs = refl

config_forgets_example :
    get_setting disk everywhere
      ((conf_path (prefix_path 640 (some root) (some name)), made_conf) ∷ with_conf with_esync)
      (some root)
      (some name)
      (some (codes "esync"))
      8
    ≡ (Status.ok, some [])
unfolding prefix_info same_text joined
config_forgets_example =
    config_forgets disk everywhere no_info (with_conf with_esync)
      ((conf_path (prefix_path 640 (some root) (some name)), made_conf) ∷ with_conf with_esync)
      (some root) (some name) (some (codes "Vulkan")) (some (codes "ALSA")) (pos 2) (codes "esync")
      with_esync 8 config_runs refl refl (omega arith) refl refl refl refl

-- A bottle with two files, one in a folder.
abbrev tree : Entries
tree =
    cons (codes "a.txt") (file (some (codes "hello")))
      (cons (codes "d") (folder (cons (codes "b") (file (some [])) nil)) nil)

tree_walked : walk [] tree ≡ (codes "a.txt", codes "hello") ∷ (codes "d/b", []) ∷ []
unfolding walk same_text
tree_walked = refl

abbrev plenty : ℕ → Bool
plenty size = true

abbrev archive : Bytes
archive = codes "/r/games.cbk"

abbrev stream_of : Bytes → Bytes
stream_of tail = codes "CBK1" ++ tail

backup_runs : prefix_backup disk [] tree (some root) (some name) (some archive) ≡ (
  Status.ok,
  (
    archive,
    stream_of (entries ((codes "a.txt", codes "hello") ∷ (codes "d/b", []) ∷ []) ++ wr_u32 0),
  )
      ∷ [],
)
unfolding prefix_backup same_text walk
backup_runs = refl

-- The file system with the archive of the bottle.
abbrev saved : Written
saved =
    (
      archive,
      stream_of (entries ((codes "a.txt", codes "hello") ∷ (codes "d/b", []) ∷ []) ++ wr_u32 0),
    )
    ∷ []

restore-backup_example :
    let made = (prefix_create disk saved uninit (some root) (some (codes "copy"))).0.1 in
    let bottle = prefix_path 640 (some root) (some (codes "copy")) in
    (h : Written) × (prefix_restore disk plenty saved uninit
        (some root)
        (some (codes "copy"))
        (some archive)
      ≡ some (Status.ok, h))
    × ((path content : Bytes)
        → left_at bottle path (disk.read made path) (walk [] tree) ≡ some content
        → disk.read h path ≡ some content)
unfolding same_text walk find_behind
restore-backup_example =
    restore-backup disk disk-writes disk-other disk-mkdir plenty [] saved uninit tree root
      (some name) (some (codes "copy")) archive backup_runs refl refl

-- The archive without its second half.
abbrev cut_off : Written
cut_off = (archive, stream_of (entries ((codes "a.txt", codes "hello") ∷ []) ++ 3 ∷ 0 ∷ [])) ∷ []

restore_cut_off_example :
    let made = (prefix_create disk cut_off uninit (some root) (some name)).0.1 in
    let bottle = prefix_path 640 (some root) (some name) in
    (h : Written) × (prefix_restore disk plenty cut_off uninit
        (some root)
        (some name)
        (some archive)
      ≡ some (Status.ok, h))
    × ((path content : Bytes)
        → left_at bottle path (disk.read made path) ((codes "a.txt", codes "hello") ∷ [])
          ≡ some content
        → disk.read h path ≡ some content)
unfolding same_text find_behind
restore_cut_off_example =
    restore_cut_off disk disk-writes disk-other disk-mkdir plenty cut_off uninit root (some name)
      archive ((codes "a.txt", codes "hello") ∷ []) (3 ∷ 0 ∷ []) refl refl refl (omega arith)

-- A file with two dots in its name, between two others.
abbrev dotted : Written
dotted =
    (
      archive,
      stream_of (
          entries ((codes "a", []) ∷ [])
          ++ (entry (codes "v1..2") (codes "x") ++ (entries ((codes "z", []) ∷ []) ++ wr_u32 0))),
    )
    ∷ []

restore_refuses_dots_example :
    prefix_restore disk plenty dotted uninit (some root) (some name) (some archive)
    ≡ some (
      err_invalid_argument,
      store_all disk
          (prefix_create disk dotted uninit (some root) (some name)).0.1
          (prefix_path 640 (some root) (some name))
          ((codes "a", []) ∷ []),
    )
unfolding same_text find_behind
restore_refuses_dots_example =
    restore_refuses_dots disk plenty dotted uninit root (some name) archive refl
      ((codes "a", []) ∷ []) ((codes "z", []) ∷ []) (codes "v1..2") (codes "x") refl refl refl refl

restore_ends_example :
    (st : Status) × (g : Written) × (prefix_restore disk plenty cut_off uninit
        (some root)
        (some name)
        (some archive)
      ≡ some (st, g))
restore_ends_example =
    restore_ends disk plenty cut_off uninit (some root) (some name) (some archive)
