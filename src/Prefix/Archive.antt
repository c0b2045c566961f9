-- ===== src/Prefix/Archive.antt =====
-- The archives of src/prefix/prefix.c: after "CBK1" each file with its path, both behind their
-- lengths, and a length 0. What `readdir`, `lstat` and `fread` give of a bottle is a tree; the paths
-- of its files fit the arrays of the walk. The archive is not one of the files.
pub mod Ends
pub mod Streams
pub mod Stored
pub mod Restored
use fantastic_octo_meme.Prelude.{
  ℕ, zero, suc, ◌+◌, ◌-◌, ◌/◌, ◌%◌, ◌^◌, Bool, true, false, not, ◌&&◌, ◌||◌, List, [], ◌∷◌, ◌++◌,
  length, take, drop, ltb, leb, ◌==◌, Option, none, some, if◌then◌else◌,
}
use fantastic_octo_meme.Memory.{Bytes}
use fantastic_octo_meme.Status.{Status, err_invalid_argument, err_out_of_memory, is_ok}
use fantastic_octo_meme.Util.{c_str, u32}
use fantastic_octo_meme.Text.{codes, clip, same_text}
use fantastic_octo_meme.Text.Decimal.{decimal}
use fantastic_octo_meme.Files.{FileSystem, stored, mkdir_p}
use fantastic_octo_meme.Shell.{Shell}
use fantastic_octo_meme.Workspace.{join, valid_name}
use fantastic_octo_meme.Prefix.{prefix_path}
use fantastic_octo_meme.Prefix.Config.{find_behind, prefix_info, prefix_create}
use fantastic_octo_meme.Prefix.Config

-- A file that can be read or not, a folder, or anything else.
mutual
  pub data Node : Type 0 where
    file : Option Bytes → Node
    folder : Entries → Node
    other : Node

  pub data Entries : Type 0 where
    nil : Entries
    cons : Bytes → Node → Entries → Entries

-- The files of an archive: their paths and contents.
abbrev pub Files : Type 0
Files = List (Bytes × Bytes)

-- The path of an entry.
abbrev pub child_rel : Bytes → Bytes → Bytes
child_rel rel name = if length rel == 0 then clip 1024 name else clip 1024 (rel ++ b'/' ∷ name)

-- `backup_file`, which passes over a file that cannot be read, and `backup_walk`.
unfoldable mutual
  pub node_files : Bytes → Node → Files
  node_files rel (file none) = []
  node_files rel (file (some content)) = (rel, content) ∷ []
  node_files rel (folder es) = walk rel es
  node_files rel other = []

  pub walk : Bytes → Entries → Files
  walk rel nil = []
  walk rel (cons name n es) =
      let rest = walk rel es in
      let these = node_files (child_rel rel name) n in
      if same_text name (codes ".") || same_text name (codes "..") then rest else these ++ rest

-- `wr_u32`.
abbrev pub wr_u32 : ℕ → Bytes
wr_u32 v = v % 256 ∷ (v / 256) % 256 ∷ (v / 65536) % 256 ∷ (v / 16777216) % 256 ∷ []

-- What is written for a file, and for all of them.
abbrev pub entry : Bytes → Bytes → Bytes
entry rel content =
    wr_u32 (length rel % 2 ^ 32) ++ (rel ++ (wr_u32 (length content % 2 ^ 32) ++ content))

abbrev pub entries : Files → Bytes
entries [] = []
entries ((rel, content) ∷ es) = entry rel content ++ entries es

-- `rd_u32`, and `fread` of `n` bytes: what is read, and what stands behind.
abbrev pub rd_u32 : Bytes → Option (ℕ × Bytes)
rd_u32 (b0 ∷ b1 ∷ b2 ∷ b3 ∷ s) = some (u32 b0 b1 b2 b3, s)
rd_u32 _ = none

unfoldable pub fread : ℕ → Bytes → Option (Bytes × Bytes)
fread n s = if leb n (length s) then some (take n s, drop n s) else none

-- One round of the loop of `cellar_prefix_restore`: it ends with a status, or has a file.
pub data Round : Type 0 where
  finish : Status → Round
  found : Bytes → Bytes → Bytes → Round

-- `strstr(rel, "..")`.
abbrev pub has_dots : Bytes → Bool
has_dots rel = elim (find_behind (codes "..") rel) [ none ↦ false | some t ↦ true ]

-- The content behind a path; `granted` says whether `malloc` gives an object of a size.
abbrev pub with_content : (ℕ → Bool) → Bytes → Option (ℕ × Bytes) → Round
with_content granted rel none = finish err_invalid_argument
with_content granted rel (some (dlen, s)) =
    let read : Round = elim (fread dlen s) [
      | none ↦ finish err_invalid_argument
      | some (content, rest) ↦ found rel content rest
    ] in
    if granted (if dlen == 0 then 1 else dlen) then read else finish err_out_of_memory

abbrev pub with_path : (ℕ → Bool) → Option (Bytes × Bytes) → Round
with_path granted none = finish err_invalid_argument
with_path granted (some (rel, s)) =
    if has_dots (c_str rel)
    then finish err_invalid_argument
    else with_content granted (c_str rel) (rd_u32 s)

abbrev pub with_length : (ℕ → Bool) → Option (ℕ × Bytes) → Round
with_length granted none = finish Status.ok
with_length granted (some (plen, s)) =
    if plen == 0
    then finish Status.ok
    else if leb 512 plen
    then finish err_invalid_argument
    else with_path granted (fread plen s)

unfoldable pub round : (ℕ → Bool) → Bytes → Round
unfolding fread
round granted s = with_length granted (rd_u32 s)

-- `strrchr(dir, '/')`: what stands before the last slash, if there is one.
unfoldable pub before_slash : Bytes → Option Bytes
before_slash [] = none
before_slash (c ∷ s) = elim (before_slash s) [
  | some t ↦ some (c ∷ t)
  | none ↦ if c == b'/' then some [] else none
]

module _ {F : Type 0} (os : FileSystem F) where
  -- The folder of a file is made, if its path has one, and the file is written, if it can be opened.
  abbrev pub make_parent : F → Option Bytes → F
  make_parent fs none = fs
  make_parent fs (some dir) = (mkdir_p os fs dir).0

  unfoldable pub store_file : F → Bytes → Bytes → Bytes → F
  unfolding before_slash
  store_file fs bottle rel content =
      let abs = join 1024 bottle rel in
      let made = make_parent fs (before_slash (clip 1024 abs)) in
      elim (os.write made abs content) [ none ↦ made | some g ↦ g ]

  -- The loop; `none` is fuel used up.
  unfoldable pub restore_loop : (ℕ → Bool) → ℕ → F → Bytes → Bytes → Option (Status × F)
  unfolding round store_file
  restore_loop granted zero fs bottle s = none
  restore_loop granted (suc fuel) fs bottle s = elim (round granted s) [
    | finish st ↦ some (st, fs)
    | found rel content rest ↦
        restore_loop granted fuel (store_file fs bottle rel content) bottle rest
  ]

  -- `cellar_prefix_backup`, of the tree that the bottle is.
  unfoldable pub prefix_backup :
      F → Entries → Option Bytes → Option Bytes → Option Bytes → Status × F
  unfolding walk
  prefix_backup fs tree none name archive = (err_invalid_argument, fs)
  prefix_backup fs tree (some root) name none = (err_invalid_argument, fs)
  prefix_backup fs tree (some root) name (some archive) =
      let stream = codes "CBK1" ++ (entries (walk [] tree) ++ wr_u32 0) in
      if valid_name name then stored fs (os.write fs archive stream) else (err_invalid_argument, fs)

  -- What follows the magic; the result of `cellar_prefix_create` is not looked at.
  abbrev pub restore_stream :
      (ℕ → Bool) → F → Shell → Bytes → Option Bytes → Bytes → Option (Status × F)
  restore_stream granted fs sh root name s =
      restore_loop granted (length s + 1) (prefix_create os fs sh (some root) name).0.1
        (prefix_path 640 (some root) name) s

  -- `cellar_prefix_restore`.
  unfoldable pub prefix_restore :
      (ℕ → Bool) → F → Shell → Option Bytes → Option Bytes → Option Bytes → Option (Status × F)
  unfolding restore_loop
  prefix_restore granted fs sh none name archive = some (err_invalid_argument, fs)
  prefix_restore granted fs sh (some root) name none = some (err_invalid_argument, fs)
  prefix_restore granted fs sh (some root) name (some archive) =
      let opened : Option (Status × F) = elim (os.read fs archive) [
        | none ↦ some (err_invalid_argument, fs)
        | some bytes ↦
            let restored = restore_stream granted fs sh root name (drop 4 bytes) in
            if same_text (take 4 bytes) (codes "CBK1")
            then restored
            else some (err_invalid_argument, fs)
      ] in
      if valid_name name then opened else some (err_invalid_argument, fs)

  -- `cellar_prefix_export` and `cellar_prefix_import`.
  abbrev pub prefix_export : F → Entries → Option Bytes → Option Bytes → Option Bytes → Status × F
  prefix_export fs tree root name archive = prefix_backup fs tree root name archive

  abbrev pub prefix_import :
      (ℕ → Bool) → F → Shell → Option Bytes → Option Bytes → Option Bytes → Option (Status × F)
  prefix_import granted fs sh root name archive = prefix_restore granted fs sh root name archive

  -- The archive in between.
  abbrev pub clone_path : Bytes → Bytes → ℕ → Bytes
  clone_path root src pid =
      clip 700 (root ++ (codes "/.clone-" ++ (src ++ (b'-' ∷ (decimal pid ++ codes ".cbk")))))

  -- What follows the restoration: the archive is removed.
  abbrev pub unlinked : (F → Bytes → F) → Bytes → Option (Status × F) → Option (Status × F)
  unlinked unlink tmp none = none
  unlinked unlink tmp (some (st, fs)) = some (st, unlink fs tmp)

  -- `cellar_prefix_clone`; `unlink` and the process number are given.
  unfoldable pub prefix_clone :
      (F → Bytes → Bool)
      → (F → Bytes → F)
      → ℕ
      → (ℕ → Bool)
      → F
      → Entries
      → Shell
      → Option Bytes
      → Option Bytes
      → Option Bytes
      → Option (Status × F)
  unfolding prefix_backup prefix_restore
  prefix_clone is_dir unlink pid granted fs tree sh none src dst = some (err_invalid_argument, fs)
  prefix_clone is_dir unlink pid granted fs tree sh (some root) none dst =
      some (err_invalid_argument, fs)
  prefix_clone is_dir unlink pid granted fs tree sh (some root) (some src) dst =
      let tmp = clone_path root src pid in
      let saved = prefix_backup fs tree (some root) (some src) (some tmp) in
      let copied =
        unlinked unlink tmp (prefix_restore granted saved.1 sh (some root) dst (some tmp)) in
      if valid_name (some src)
        && (valid_name dst && Config.found (prefix_info os is_dir fs (some root) (some src)))
      then (if is_ok saved.0 then copied else some saved)
      else some (err_invalid_argument, fs)
