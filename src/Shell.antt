-- ===== src/Shell.antt =====
-- src/shell/shell.c: the folders of Windows inside a bottle, and the variables that stand for them.
-- The globals of the file are a state; the arrays of `g_paths` hold 512 bytes.
pub mod Expand
use fantastic_octo_meme.Prelude.{
  ℕ, zero, suc, ◌+◌, ◌-◌, Bool, true, false, ◌&&◌, ◌||◌, List, [], ◌∷◌, ◌++◌, length, take, get_or,
  ltb, leb, ◌==◌, Option, none, some, if◌then◌else◌,
}
use fantastic_octo_meme.Memory.{Bytes}
use fantastic_octo_meme.Status.{Status, err_invalid_argument}
use fantastic_octo_meme.Text.{codes, clip, same_folded}
use fantastic_octo_meme.Files.{FileSystem, mkdir_p}
use fantastic_octo_meme.Workspace.{join}

-- `g_bottle`, `g_paths` and `g_inited`.
pub record Shell : Type 0 where
  pub bottle : Bytes
  pub paths : List Bytes
  pub inited : Bool

-- Before the first call.
abbrev pub uninit : Shell
uninit = record {
  bottle = [];
  paths = [] ∷ [] ∷ [] ∷ [] ∷ [] ∷ [] ∷ [] ∷ [] ∷ [] ∷ [] ∷ [];
  inited = false;
}

-- `k_names`.
abbrev pub names : List Bytes
names =
    codes "APPDATA"
    ∷ codes "LOCALAPPDATA"
    ∷ codes "PROGRAMDATA"
    ∷ codes "TEMP"
    ∷ codes "USERPROFILE"
    ∷ codes "WINDIR"
    ∷ codes "SYSTEMROOT"
    ∷ codes "PROGRAMFILES"
    ∷ codes "HOMEDRIVE"
    ∷ codes "HOMEPATH"
    ∷ []

-- What `cellar_shell_init` puts into the arrays.
abbrev pub folders : Bytes → List Bytes
folders bottle =
    let drive = join 640 bottle (codes "drive_c") in
    let windir = join 512 drive (codes "windows") in
    let profile = join 512 drive (codes "users/user") in
    let local = join 512 profile (codes "AppData/Local") in
    join 512 profile (codes "AppData/Roaming")
    ∷ local
    ∷ join 512 drive (codes "ProgramData")
    ∷ join 512 local (codes "Temp")
    ∷ profile
    ∷ windir
    ∷ clip 512 windir
    ∷ join 512 drive (codes "Program Files")
    ∷ codes "C:"
    ∷ (92 ∷ (codes "users" ++ 92 ∷ codes "user"))
    ∷ []

-- `cellar_shell_init`, with a null pointer as `none`.
unfoldable pub shell_init : Shell → Option Bytes → Status × Shell
shell_init sh none = (err_invalid_argument, sh)
shell_init sh (some bottle) =
    if length bottle == 0
    then (err_invalid_argument, sh)
    else (Status.ok, record { bottle = clip 512 bottle; paths = folders bottle; inited = true })

-- `cellar_shell_get` and `cellar_shell_name`.
abbrev pub shell_get : Shell → ℕ → Bytes
shell_get sh v = if sh.inited && ltb v 10 then get_or sh.paths v [] else []

abbrev pub shell_name : ℕ → Bytes
shell_name v = if ltb v 10 then get_or names v [] else []

module _ {F : Type 0} (os : FileSystem F) where
  -- The loop over the folders, which passes over the two that are no folders on the host.
  unfoldable pub ensure_from : F → ℕ → List Bytes → F × Bool
  ensure_from fs v [] = (fs, true)
  ensure_from fs v (path ∷ paths) =
      let made = if v == 8 || v == 9 then (fs, true) else mkdir_p os fs path in
      let rest = ensure_from made.0 (v + 1) paths in if made.1 then rest else (made.0, false)

  -- The four folders behind the loop, whose results are not looked at.
  abbrev pub ensure_more : F → Shell → F
  ensure_more fs sh =
      let windir = get_or sh.paths 5 [] in
      let profile = get_or sh.paths 4 [] in
      let fs1 = (mkdir_p os fs (join 640 windir (codes "system32"))).0 in
      let fs2 = (mkdir_p os fs1 (join 640 windir (codes "fonts"))).0 in
      let fs3 = (mkdir_p os fs2 (join 640 profile (codes "Desktop"))).0 in
      (mkdir_p os fs3 (join 640 sh.bottle (codes "dosdevices"))).0

  -- `cellar_shell_ensure_dirs`.
  unfoldable pub ensure_dirs : F → Shell → Status × F
  unfolding ensure_from
  ensure_dirs fs sh =
      let made = ensure_from fs 0 sh.paths in
      if sh.inited
      then (if made.1 then (Status.ok, ensure_more made.0 sh) else (err_invalid_argument, made.0))
      else (err_invalid_argument, fs)

-- `lookup_var`: the path under the first name that is the given one up to case.
unfoldable pub lookup_from : List Bytes → List Bytes → Bytes → Option Bytes
lookup_from [] paths name = none
lookup_from (k ∷ ks) [] name = none
lookup_from (k ∷ ks) (path ∷ paths) name =
    if same_folded k name then some path else lookup_from ks paths name

unfoldable pub lookup_var : List Bytes → Bytes → Option Bytes
unfolding lookup_from
lookup_var paths name = lookup_from names paths name

-- `strchr(s, '%')`: what stands before the first sign, if there is one.
unfoldable pub to_percent : Bytes → Option Bytes
to_percent [] = none
to_percent (c ∷ s) =
    if c == b'%' then some [] else elim (to_percent s) [ none ↦ none | some n ↦ some (c ∷ n) ]

-- The variable that begins at a byte, if one does: the length of its name and its value.
unfoldable pub variable_at : List Bytes → ℕ → Bytes → Option (ℕ × Bytes)
variable_at paths c s =
    let hit : Option (ℕ × Bytes) = elim (to_percent s) [
      | none ↦ none
      | some name ↦ elim (lookup_var paths name) [ none ↦ none | some v ↦ some (length name, v) ]
    ] in
    let named : Bool = elim (to_percent s) [ none ↦ false | some name ↦ ltb 0 (length name) ] in
    if c == b'%' && named then hit else none

-- The loop: `skip` bytes of the text are passed over, and `o` bytes are in `out`; the result is what
-- is put behind them.
unfoldable pub expand_from : List Bytes → ℕ → ℕ → ℕ → Bytes → Bytes
unfolding variable_at
expand_from paths cap skip o [] = []
expand_from paths cap (suc skip) o (c ∷ s) = expand_from paths cap skip o s
expand_from paths cap zero o (c ∷ s) = elim (ltb (o + 1) cap) [
  | false ↦ []
  | true ↦ elim (variable_at paths c s) [
    | none ↦ c ∷ expand_from paths cap 0 (o + 1) s
    | some (n, v) ↦
        let kept = if leb cap (o + length v) then take (cap - 1 - o) v else v in
        kept ++ expand_from paths cap (n + 1) (o + length kept) s
  ]
]

-- `cellar_shell_expand`: the status and the text in `out`, which is left alone where an argument is
-- refused.
unfoldable pub expand : Shell → Option Bytes → ℕ → Status × Option Bytes
unfolding expand_from
expand sh none cap = (err_invalid_argument, none)
expand sh (some text) cap =
    if cap == 0
    then (err_invalid_argument, none)
    else if sh.inited
    then (Status.ok, some (expand_from sh.paths cap 0 0 text))
    else (err_invalid_argument, none)
