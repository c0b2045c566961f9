-- ===== src/Db/Analysed.antt =====
-- `cellar_db_from_analysis` of src/db/db.c: the entry of an application that was inspected and
-- analysed.
use fantastic_octo_meme.Prelude.{
  ℕ, ◌+◌, ◌≤◌, Bool, List, [], ◌∷◌, ◌++◌, length, length-append, leb, ltb, ◌==◌, Option, none, some,
  if◌then◌else◌, arith, ltb→lt, Bool-cases, inl, inr,
}
use fantastic_octo_meme.Memory.{Bytes}
use fantastic_octo_meme.Text.{codes, clip}
use fantastic_octo_meme.Text.Number.{ℤ, pos, negsuc}
use fantastic_octo_meme.Db.{Entry}
use fantastic_octo_meme.Db.Open.{blank}
use fantastic_octo_meme.Compat.Analysis.Issues.{Level, info, warn, error, Issue, Analysis}

-- The parts of `cellar_inspect_t` that are read.
pub record Inspected : Type 0 where
  pub basename : Bytes
  pub machine : ℕ
  pub is_64bit : Bool
  pub graphics : Bytes
  pub audio : Bytes
  pub input : Bytes
  pub needs_dotnet : ℤ
  pub needs_vcruntime : ℤ

abbrev pub from_inspection : Inspected → Entry
from_inspection ins = record {
  application = clip 128 ins.basename;
  architecture = clip 16 (
      if ins.machine == 0x8664
      then codes "x64"
      else if ins.machine == 0xaa64
      then codes "ARM64"
      else if ins.is_64bit
      then codes "x64"
      else codes "x86");
  graphics = clip 32 ins.graphics;
  audio = clip 32 ins.audio;
  input = clip 32 ins.input;
  needs_dotnet = ins.needs_dotnet;
  needs_vcruntime = ins.needs_vcruntime;
  rating = pos 0;
  issues = [];
}

-- A field that is empty takes what the analysis detected.
abbrev pub filled : ℕ → Bytes → Bytes → Bytes
filled cap now other = if length now == 0 then clip cap other else now

-- The rating of an overall percentage.
abbrev pub rating_of : ℤ → ℤ
rating_of (pos n) = if leb 90 n then pos 3 else if leb 60 n then pos 2 else pos 1
rating_of (negsuc n) = pos 1

-- The body of the loop.
abbrev pub kept_one : List Bytes → Level → Bytes → List Bytes
kept_one kept info text = kept
kept_one kept warn text = kept ++ clip 160 text ∷ []
kept_one kept error text = kept ++ clip 160 text ∷ []

-- The loop over the issues: those that only inform are skipped, and eight are kept.
unfoldable pub kept_issues : List Bytes → List Issue → List Bytes
kept_issues kept [] = kept
kept_issues kept ((level, text) ∷ is) =
    let rest = kept_issues (kept_one kept level text) is in
    if ltb (length kept) 8 then rest else kept

abbrev pub with_analysis : Entry → Analysis → Entry
with_analysis e a = record e {
  graphics = filled 32 e.graphics a.tally.detected.graphics;
  audio = filled 32 e.audio a.tally.detected.audio;
  input = filled 32 e.input a.tally.detected.input;
  application = filled 128 e.application a.called_by;
  architecture = filled 16 e.architecture (if a.is_64bit then codes "x64" else codes "x86");
  rating = rating_of a.overall;
  issues = kept_issues e.issues a.issues;
}

-- The whole, with null pointers as `none`.
abbrev pub from_analysis : Option Inspected → Option Analysis → Entry
from_analysis none none = blank []
from_analysis none (some a) = with_analysis (blank []) a
from_analysis (some ins) none = from_inspection ins
from_analysis (some ins) (some a) = with_analysis (from_inspection ins) a

length-kept_one :
    (kept : List Bytes) (level : Level) (text : Bytes)
    → length (kept_one kept level text) ≤ length kept + 1
length-kept_one kept info text = omega arith
length-kept_one kept warn text = omega (arith, length-append kept (clip 160 text ∷ []))
length-kept_one kept error text = omega (arith, length-append kept (clip 160 text ∷ []))

-- An entry never has more than eight issues, which is what its array holds.
pub length-kept_issues :
    (kept : List Bytes) (is : List Issue) → length kept ≤ 8 → length (kept_issues kept is) ≤ 8
unfolding kept_issues
length-kept_issues kept [] h = h
length-kept_issues kept ((level, text) ∷ is) h = elim (Bool-cases (ltb (length kept) 8)) [
  | inl room ↦ rw room (
      length-kept_issues (kept_one kept level text) is
        (omega (arith, length-kept_one kept level text, ltb→lt (length kept) 8 room)))
  | inr full ↦ rw full h
]
