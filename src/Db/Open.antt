-- ===== src/Db/Open.antt =====
-- `cellar_db_open` and `cellar_db_save` of src/db/db.c.
use fantastic_octo_meme.Prelude.{
  ℕ, Bool, ◌&&◌, List, [], ◌∷◌, ◌++◌, length, ltb, ◌==◌, Option, none, some, if◌then◌else◌,
}
use fantastic_octo_meme.Memory.{Bytes}
use fantastic_octo_meme.Status.{Status, err_invalid_argument}
use fantastic_octo_meme.Text.{codes, clip, same_text}
use fantastic_octo_meme.Text.Number.{pos, atoi, print_int}
use fantastic_octo_meme.Files.{FileSystem, stored, mkdir_p}
use fantastic_octo_meme.Db.{Entry, Db, put}
use fantastic_octo_meme.Db.Lines.{lines, unlines}

-- What stands before the first byte `b`, and what stands behind it, if there is one.
abbrev pub before : ℕ → Bytes → Bytes
before b [] = []
before b (c ∷ s) = if c == b then [] else c ∷ before b s

abbrev pub behind : ℕ → Bytes → Option Bytes
behind b [] = none
behind b (c ∷ s) = if c == b then some s else behind b s

-- The cleared entry of an application.
abbrev pub blank : Bytes → Entry
blank application = record {
  application = application;
  architecture = [];
  graphics = [];
  audio = [];
  input = [];
  needs_dotnet = pos 0;
  needs_vcruntime = pos 0;
  rating = pos 0;
  issues = [];
}

-- What a line `k=v` does to the current entry.
unfoldable pub assign : Entry → Bytes → Bytes → Entry
assign cur k v =
    if same_text k (codes "architecture")
    then record cur { architecture = clip 16 v }
    else if same_text k (codes "graphics")
    then record cur { graphics = clip 32 v }
    else if same_text k (codes "audio")
    then record cur { audio = clip 32 v }
    else if same_text k (codes "input")
    then record cur { input = clip 32 v }
    else if same_text k (codes "dotnet")
    then record cur { needs_dotnet = atoi v }
    else if same_text k (codes "vcruntime")
    then record cur { needs_vcruntime = atoi v }
    else if same_text k (codes "rating")
    then record cur { rating = atoi v }
    else if same_text k (codes "issue") && ltb (length cur.issues) 8
    then record cur { issues = cur.issues ++ clip 160 v ∷ [] }
    else cur

-- The database so far, and the current entry, if there is one.
abbrev pub Reading : Type 0
Reading = Db × Option Entry

-- `if (have) cellar_db_put(db, &cur);`, whose status is not looked at.
abbrev pub flush : (ℕ → Bool) → Reading → Db
flush granted (db, none) = db
flush granted (db, some cur) = (put granted db cur).1

-- A line that is not a comment, not empty and not a header.
abbrev pub take_field : Reading → Bytes → Reading
take_field (db, none) l = (db, none)
take_field (db, some cur) l = elim (behind b'=' l) [
  | none ↦ (db, some cur)
  | some v ↦ (db, some (assign cur (before b'=' l) v))
]

-- The body of the loop.
unfoldable pub read_line : (ℕ → Bool) → Reading → Bytes → Reading
unfolding assign
read_line granted r [] = r
read_line granted r (c ∷ l) =
    if c == b'#'
    then r
    else if c == b'['
    then (flush granted r, some (blank (clip 128 (before b']' l))))
    else take_field r (c ∷ l)

-- The loop.
abbrev pub read_lines : (ℕ → Bool) → Reading → List Bytes → Reading
read_lines granted r [] = r
read_lines granted r (l ∷ ls) = read_lines granted (read_line granted r l) ls

-- The lines that `cellar_db_save` writes.
abbrev pub issue_lines : List Bytes → List Bytes
issue_lines [] = []
issue_lines (i ∷ is) = (codes "issue=" ++ i) ∷ issue_lines is

abbrev pub entry_lines : Entry → List Bytes
entry_lines e =
    (b'[' ∷ (e.application ++ codes "]"))
    ∷ (codes "architecture=" ++ e.architecture)
    ∷ (codes "graphics=" ++ e.graphics)
    ∷ (codes "audio=" ++ e.audio)
    ∷ (codes "input=" ++ e.input)
    ∷ (codes "dotnet=" ++ print_int e.needs_dotnet)
    ∷ (codes "vcruntime=" ++ print_int e.needs_vcruntime)
    ∷ (codes "rating=" ++ print_int e.rating)
    ∷ (issue_lines e.issues ++ [] ∷ [])

abbrev pub all_lines : List Entry → List Bytes
all_lines [] = []
all_lines (e ∷ es) = entry_lines e ++ all_lines es

abbrev pub content : List Entry → Bytes
content es = unlines (codes "# cellar-compat-db 1" ∷ all_lines es)

-- What stands before the last slash, if there is one.
abbrev pub parent : Bytes → Option Bytes
parent [] = none
parent (c ∷ s) =
    let rest = parent s in
    elim rest [ some d ↦ some (c ∷ d) | none ↦ if c == b'/' then some [] else none ]

module _ {F : Type 0} (os : FileSystem F) where
  open os use {read, write}

  -- `cellar_db_open`, with a null path as `none`. A file that cannot be opened is an empty
  -- database.
  unfoldable pub db_open : (ℕ → Bool) → F → Option Bytes → Status × Option Db
  unfolding read_line
  db_open granted fs none = (err_invalid_argument, none)
  db_open granted fs (some path) =
      let empty : Db = record { entries = []; cap = 0; path = clip 1024 path } in
      let opened : Db = elim (read fs path) [
        | none ↦ empty
        | some bytes ↦ flush granted (read_lines granted (empty, none) (lines bytes))
      ] in
      if length path == 0 then (err_invalid_argument, none) else (Status.ok, some opened)

  -- `cellar_db_save`. The result of `cellar_mkdir_p` is not looked at.
  unfoldable pub db_save : F → Db → Status × F
  db_save fs db =
      let made : F = elim (parent (clip 1024 db.path)) [
        | none ↦ fs
        | some dir ↦ (mkdir_p os fs dir).0
      ] in
      if length db.path == 0
      then (err_invalid_argument, fs)
      else stored made (write made db.path (content db.entries))
