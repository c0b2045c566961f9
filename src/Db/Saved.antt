-- ===== src/Db/Saved.antt =====
-- `cellar_db_open` reads what `cellar_db_save` wrote.
pub mod RoundTrip
use mathlib.Core.List.{append_assoc}
use fantastic_octo_meme.Prelude.{
  ℕ, zero, suc, ◌+◌, ◌-◌, ◌≤◌, ◌<◌, ◌≡◌, ◌≢◌, ◌∙◌, Bool, true, false, not, ◌&&◌, List, [], ◌∷◌,
  ◌++◌, length, length-append, ltb, ◌==◌, append_nil, append_cons, refl, ap, sym, arith, Option,
  none, some, if◌then◌else◌,
}
use fantastic_octo_meme.Memory.{Bytes}
use fantastic_octo_meme.Text.{codes, clip, lacks, same_text}
use fantastic_octo_meme.Text.Number.{ℤ, pos, negsuc, print_int, IsInt, atoi}
use fantastic_octo_meme.Text.Number.RoundTrip.{atoi-print_int}
use fantastic_octo_meme.Conf.Back.{fits, clip-fits}
use fantastic_octo_meme.Db.{Entry, Db}
use fantastic_octo_meme.Db.Open.{
  before, blank, assign, Reading, flush, read_line, read_lines, issue_lines, entry_lines,
}

-- Every issue fits into its array on one line.
abbrev pub AllIssues : List Bytes → Type 0
AllIssues [] = Unit {0}
AllIssues (i ∷ is) = (fits 160 i ≡ true) × AllIssues is

-- The texts stand on one line and fit into their arrays, the name of the application is not empty
-- and has no bracket that closes, and the numbers are of the type `int`.
pub record IsValid (e : Entry) : Type 0 where
  pub application_fits : fits 128 e.application ≡ true
  pub application_given : 0 < length e.application
  pub application_plain : lacks b']' e.application ≡ true
  pub architecture_fits : fits 16 e.architecture ≡ true
  pub graphics_fits : fits 32 e.graphics ≡ true
  pub audio_fits : fits 32 e.audio ≡ true
  pub input_fits : fits 32 e.input ≡ true
  pub needs_dotnet_is : IsInt e.needs_dotnet
  pub needs_vcruntime_is : IsInt e.needs_vcruntime
  pub rating_is : IsInt e.rating
  pub issues_fit : AllIssues e.issues
  pub issues_few : length e.issues ≤ 8

before-lacks : (b : ℕ) (s t : Bytes) → lacks b s ≡ true → before b (s ++ b ∷ t) ≡ s
before-lacks b [] t h = ground arith
before-lacks b (c ∷ s) t h = ground (arith, before-lacks b s t)

assign-issue :
    (cur : Entry) (i : Bytes)
    → ltb (length cur.issues) 8 ≡ true
    → fits 160 i ≡ true
    → assign cur (codes "issue") i ≡ record cur { issues = cur.issues ++ i ∷ [] }
unfolding assign same_text
assign-issue cur i room fit = rw (assign, room, clip-fits 160 i fit) refl

-- The lines of the issues, and the empty line behind them.
read_issues :
    (granted : ℕ → Bool) (db : Db) (cur : Entry) (is : List Bytes) (rest : List Bytes)
    → AllIssues is
    → length cur.issues + length is ≤ 8
    → read_lines granted (db, some cur) (issue_lines is ++ [] ∷ rest)
      ≡ read_lines granted (db, some (record cur { issues = cur.issues ++ is })) rest
unfolding read_line assign same_text
read_issues granted db cur [] rest fit few =
    ap (λ is. read_lines granted (db, some (record cur { issues = is })) rest)
      (sym (append_nil cur.issues))
read_issues granted db cur (i ∷ is) rest (fit, fits_all) few =
    let next = record cur { issues = cur.issues ++ i ∷ [] } in
    let room : ltb (length cur.issues) 8 ≡ true = ground arith in
    ap (λ x. read_lines granted (db, some x) (issue_lines is ++ [] ∷ rest))
      (assign-issue cur i room fit)
    ∙ (read_issues granted db next is rest fits_all
          (omega (arith, length-append cur.issues (i ∷ [])))
        ∙ ap (λ is. read_lines granted (db, some (record cur { issues = is })) rest)
            (append_cons cur.issues i is))

-- What the lines of an entry leave.
read_entry :
    (granted : ℕ → Bool) (r : Reading) (e : Entry) (rest : List Bytes)
    → IsValid e
    → read_lines granted r (entry_lines e ++ rest)
      ≡ read_lines granted (flush granted r, some e) rest
unfolding read_line assign same_text
read_entry granted r e rest v =
    let lines_read : Entry = record {
      application = clip 128 (before b']' (e.application ++ codes "]"));
      architecture = clip 16 e.architecture;
      graphics = clip 32 e.graphics;
      audio = clip 32 e.audio;
      input = clip 32 e.input;
      needs_dotnet = atoi (print_int e.needs_dotnet);
      needs_vcruntime = atoi (print_int e.needs_vcruntime);
      rating = atoi (print_int e.rating);
      issues = [];
    } in
    let same : record lines_read { issues = e.issues } ≡ e = λ i. record {
      application =
          (ap (clip 128) (before-lacks b']' e.application [] v.application_plain)
              ∙ clip-fits 128 e.application v.application_fits)
            i;
      architecture = clip-fits 16 e.architecture v.architecture_fits i;
      graphics = clip-fits 32 e.graphics v.graphics_fits i;
      audio = clip-fits 32 e.audio v.audio_fits i;
      input = clip-fits 32 e.input v.input_fits i;
      needs_dotnet = atoi-print_int e.needs_dotnet v.needs_dotnet_is i;
      needs_vcruntime = atoi-print_int e.needs_vcruntime v.needs_vcruntime_is i;
      rating = atoi-print_int e.rating v.rating_is i;
      issues = e.issues;
    } in
    ap (read_lines granted (flush granted r, some lines_read))
      (append_assoc (issue_lines e.issues) ([] ∷ []) rest)
    ∙ read_issues granted (flush granted r) lines_read e.issues rest v.issues_fit
        (omega (arith, v.issues_few))
    ∙ ap (λ x. read_lines granted (flush granted r, some x) rest) same
