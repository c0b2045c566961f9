-- ===== src/Db.antt =====
-- src/db/db.c: the database of what is known about the applications.
pub mod Lines
pub mod Open
pub mod Find
pub mod Saved
pub mod Analysed
use fantastic_octo_meme.Prelude.{
  ℕ, zero, suc, ◌+◌, ◌-◌, ◌*◌, Bool, true, false, List, [], ◌∷◌, ◌++◌, length, get_elem?, ltb, ◌==◌,
  Option, none, some, if◌then◌else◌,
}
use fantastic_octo_meme.Memory.{Bytes}
use fantastic_octo_meme.Status.{Status, err_invalid_argument, err_out_of_memory}
use fantastic_octo_meme.Util.{joined}
use fantastic_octo_meme.Compat.Profile.{prefix_dir}
use fantastic_octo_meme.Text.{codes, clip, same_folded}
use fantastic_octo_meme.Text.Number.{ℤ, pos, negsuc}

-- `cellar_rating_name`; a rating is the `int` that stands for it.
abbrev pub rating_name : ℤ → Bytes
rating_name (pos n) =
    if n == 3
    then codes "HIGH"
    else if n == 2
    then codes "MEDIUM"
    else if n == 1
    then codes "LOW"
    else codes "UNKNOWN"
rating_name (negsuc n) = codes "UNKNOWN"

-- `cellar_db_default_path`, into an array of `n` bytes.
abbrev pub default_path : (Bytes → Option Bytes) → ℕ → Bytes
default_path getenv n = clip n (joined (prefix_dir getenv) (codes "compat.db"))

-- `cellar_db_entry_t`; the issues are the first `issue_count` of the array.
pub record Entry : Type 0 where
  pub application : Bytes
  pub architecture : Bytes
  pub graphics : Bytes
  pub audio : Bytes
  pub input : Bytes
  pub needs_dotnet : ℤ
  pub needs_vcruntime : ℤ
  pub rating : ℤ
  pub issues : List Bytes

-- `cellar_db_t`; the entries are the first `count` of `cap`.
pub record Db : Type 0 where
  pub entries : List Entry
  pub cap : ℕ
  pub path : Bytes

-- The first entry with the application's name, up to case, is replaced.
unfoldable pub replaced : Entry → List Entry → Option (List Entry)
replaced e [] = none
replaced e (d ∷ ds) =
    let rest = replaced e ds in
    if same_folded d.application e.application
    then some (e ∷ ds)
    else elim rest [ none ↦ none | some es ↦ some (d ∷ es) ]

-- The capacity after `realloc`, if it grants the memory.
abbrev pub doubled : ℕ → ℕ
doubled cap = if cap == 0 then 8 else cap * 2

abbrev pub appended : Db → Entry → ℕ → Db
appended db e cap = record db { entries = db.entries ++ e ∷ []; cap = cap }

-- Behind the loop of `cellar_db_put`.
abbrev pub put_new : (ℕ → Bool) → Db → Entry → Option (List Entry) → Status × Db
put_new granted db e (some es) = (Status.ok, record db { entries = es })
put_new granted db e none =
    if length db.entries == db.cap
    then (if granted (doubled db.cap)
        then (Status.ok, appended db e (doubled db.cap))
        else (err_out_of_memory, db))
    else (Status.ok, appended db e db.cap)

-- `cellar_db_put`; `granted` says for which capacities `realloc` succeeds.
unfoldable pub put : (ℕ → Bool) → Db → Entry → Status × Db
unfolding replaced
put granted db e =
    if length e.application == 0
    then (err_invalid_argument, db)
    else put_new granted db e (replaced e db.entries)

unfoldable pub find_entry : List Entry → Bytes → Option Entry
find_entry [] app = none
find_entry (d ∷ ds) app =
    let rest = find_entry ds app in if same_folded d.application app then some d else rest

-- `cellar_db_find`, `cellar_db_count` and `cellar_db_at`.
abbrev pub find : Db → Bytes → Option Entry
find db app = find_entry db.entries app

abbrev pub db_count : Db → ℕ
db_count db = length db.entries

abbrev pub entry_at : Db → ℕ → Option Entry
entry_at db i = get_elem? db.entries i
