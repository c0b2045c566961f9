-- ===== src/Db/Saved/RoundTrip.antt =====
-- `cellar_db_open` after `cellar_db_save`.
use mathlib.Core.List.{append_assoc}
use fantastic_octo_meme.Prelude.{
  subst, ℕ, ◌<◌, ◌≡◌, ◌∙◌, Bool, true, false, ◌||◌, List, [], ◌∷◌, ◌++◌, length, length-append,
  ◌==◌, append_nil, append_cons, refl, ap, sym, arith, Bool-cases, inl, inr, none, some,
}
use fantastic_octo_meme.Memory.{Bytes}
use fantastic_octo_meme.Status.{Status}
use fantastic_octo_meme.Text.{codes, clip, newline, same_folded}
use fantastic_octo_meme.Conf.Back.{◌&◌, lacks-append, print_int-fits}
use fantastic_octo_meme.Files.{FileSystem, stored-ok, mkdir_p}
use fantastic_octo_meme.Db.{Entry, Db, replaced, put, doubled}
use fantastic_octo_meme.Db.Lines.{is_line, AllLines, lines-unlines}
use fantastic_octo_meme.Db.Open.{
  Reading, flush, read_line, read_lines, issue_lines, entry_lines, all_lines, content, parent,
  db_open, db_save,
}
use fantastic_octo_meme.Db.Saved.{IsValid, AllIssues, read_entry}

abbrev pub AllValid : List Entry → Type 0
AllValid [] = Unit {0}
AllValid (e ∷ es) = IsValid e × AllValid es

-- Whether an application is in the list, up to case.
abbrev pub known : List Entry → Bytes → Bool
known [] app = false
known (d ∷ ds) app = same_folded d.application app || known ds app

-- No two entries behind `done` name one application.
abbrev pub Distinct : List Entry → List Entry → Type 0
Distinct front [] = Unit {0}
Distinct front (e ∷ es) = (known front e.application ≡ false) × Distinct (front ++ e ∷ []) es

known-replaced :
    (e : Entry) (ds : List Entry) → known ds e.application ≡ false → replaced e ds ≡ none
unfolding replaced
known-replaced e [] h = refl
known-replaced e (d ∷ ds) h = ground (arith, known-replaced e ds)

put-new_entry :
    (granted : ℕ → Bool) (db : Db) (e : Entry)
    → ((n : ℕ) → granted n ≡ true)
    → 0 < length e.application
    → known db.entries e.application ≡ false
    → (put granted db e).1.entries ≡ db.entries ++ e ∷ []
unfolding put
put-new_entry granted db e memory named new =
    let given : (length e.application == 0) ≡ false = ground arith in
    elim (Bool-cases (length db.entries == db.cap)) [
      | inl full ↦ rw (given, known-replaced e db.entries new, full, memory (doubled db.cap)) refl
      | inr room ↦ rw (given, known-replaced e db.entries new, room) refl
    ]

read_all :
    (granted : ℕ → Bool) (r : Reading) (es : List Entry)
    → ((n : ℕ) → granted n ≡ true)
    → AllValid es
    → Distinct (flush granted r).entries es
    → (flush granted (read_lines granted r (all_lines es ++ [] ∷ []))).entries
      ≡ (flush granted r).entries ++ es
unfolding read_line
read_all granted r [] memory v d = sym (append_nil (flush granted r).entries)
read_all granted r (e ∷ es) memory (v, vs) (new, d) =
    let front = (flush granted r).entries in
    let next : Reading = (flush granted r, some e) in
    let placed : (flush granted next).entries ≡ front ++ e ∷ [] =
      put-new_entry granted (flush granted r) e memory v.application_given new in
    ap (λ ls. (flush granted (read_lines granted r ls)).entries)
      (append_assoc (entry_lines e) (all_lines es) ([] ∷ []))
    ∙ ap (λ x. (flush granted x).entries) (read_entry granted r e (all_lines es ++ [] ∷ []) v)
    ∙ read_all granted next es memory vs (subst (λ f. Distinct f es) (sym placed) d)
    ∙ ap (λ f. f ++ es) placed
    ∙ append_cons front e es

AllLines-append : (a b : List Bytes) → AllLines a → AllLines b → AllLines (a ++ b)
AllLines-append [] b h g = g
AllLines-append (l ∷ a) b (h, hs) g = (h, AllLines-append a b hs g)

issue_lines-AllLines : (is : List Bytes) → AllIssues is → AllLines (issue_lines is)
issue_lines-AllLines [] h = tt
issue_lines-AllLines (i ∷ is) (h, hs) = (ground arith, issue_lines-AllLines is hs)

entry_lines-AllLines : (e : Entry) → IsValid e → AllLines (entry_lines e)
entry_lines-AllLines e v =
    header
    & ground (arith, v.architecture_fits)
    & ground (arith, v.graphics_fits)
    & ground (arith, v.audio_fits)
    & ground (arith, v.input_fits)
    & ground (arith, print_int-fits e.needs_dotnet)
    & ground (arith, print_int-fits e.needs_vcruntime)
    & ground (arith, print_int-fits e.rating)
    & AllLines-append (issue_lines e.issues) ([] ∷ []) (issue_lines-AllLines e.issues v.issues_fit)
        (refl, tt)
  where
    header : is_line (b'[' ∷ (e.application ++ codes "]")) ≡ true
    header = ground (
      arith,
      v.application_fits,
      lacks-append newline e.application (codes "]"),
      lacks-append 0 e.application (codes "]"),
      length-append e.application (codes "]"),
    )

all_lines-AllLines : (es : List Entry) → AllValid es → AllLines (all_lines es)
all_lines-AllLines [] v = tt
all_lines-AllLines (e ∷ es) (v, vs) =
    AllLines-append (entry_lines e) (all_lines es) (entry_lines-AllLines e v)
      (all_lines-AllLines es vs)

-- If `cellar_db_save` stored a database with `CELLAR_OK` whose entries are valid and of distinct
-- applications, then `cellar_db_open` of its path returns a database with the same entries in the
-- same order, if there is memory for them.
pub db_open-db_save :
    {F : Type 0}
    → (os : FileSystem F) (fs g : F) (db : Db) (granted : ℕ → Bool) → ((n : ℕ) → granted n ≡ true)
    → AllValid db.entries
    → Distinct [] db.entries
    → db_save os fs db ≡ (Status.ok, g)
    → (after : Db) × (db_open os granted g (some db.path) ≡ (Status.ok, some after))
      × (after.entries ≡ db.entries)
unfolding db_open db_save read_line
db_open-db_save {F} os fs g db granted memory v d e =
    let made : F = elim (parent (clip 1024 db.path)) [
      | none ↦ fs
      | some dir ↦ (mkdir_p os fs dir).0
    ] in
    let heading = codes "# cellar-compat-db 1" in
    let whole =
      lines-unlines (heading ∷ all_lines db.entries) (refl, all_lines-AllLines db.entries v) in
    let empty : Db = record { entries = []; cap = 0; path = clip 1024 db.path } in
    let after =
      flush granted (read_lines granted (empty, none) (all_lines db.entries ++ [] ∷ [])) in
    elim (Bool-cases (length db.path == 0)) [
      | inl unnamed ↦ let e' = rw unnamed at e in absurd (cc)
      | inr named ↦
          let back =
            os.read-write made g db.path (content db.entries)
              (stored-ok made g (os.write made db.path (content db.entries)) (rw named at e)) in
          (
            after,
            rw (named, back)
                (ap (λ ls. (Status.ok, some (flush granted (read_lines granted (empty, none) ls))))
                  whole),
            read_all granted (empty, none) db.entries memory v d,
          )
    ]
