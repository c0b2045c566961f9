-- ===== src/Db/Find.antt =====
-- `cellar_db_put` and `cellar_db_find`.
use fantastic_octo_meme.Prelude.{
  subst, ℕ, ◌≡◌, ◌∙◌, Bool, true, List, [], ◌∷◌, ◌++◌, length, ◌==◌, refl, ap, sym, arith,
  Bool-cases, Option-cases, inl, inr, Option, none, some, if◌then◌else◌,
}
use fantastic_octo_meme.Memory.{Bytes}
use fantastic_octo_meme.Status.{Status}
use fantastic_octo_meme.Text.{same_folded}
use fantastic_octo_meme.Db.{Entry, Db, replaced, put, put_new, find_entry, find, doubled}

-- `strcasecmp(a, b) == 0` is an equivalence.
pub same_folded_refl : (a : Bytes) → same_folded a a ≡ true
unfolding same_folded
same_folded_refl [] = refl
same_folded_refl (c ∷ a) = ground (arith, same_folded_refl a)

same_folded_trans : (a b c : Bytes) → same_folded a b ≡ true → same_folded a c ≡ same_folded b c
unfolding same_folded
same_folded_trans [] [] c h = refl
same_folded_trans [] (y ∷ b) c h = absurd (cc)
same_folded_trans (x ∷ a) [] c h = absurd (cc)
same_folded_trans (x ∷ a) (y ∷ b) [] h = refl
same_folded_trans (x ∷ a) (y ∷ b) (z ∷ c) h = ground (arith, same_folded_trans a b c)

-- What is found after an entry was replaced, and after one was appended.
find-replaced :
    (e : Entry) (ds es : List Entry) (app : Bytes)
    → replaced e ds ≡ some es
    → find_entry es app ≡ (if same_folded e.application app then some e else find_entry ds app)
unfolding replaced find_entry
find-replaced e [] es app h = absurd (cc)
find-replaced e (d ∷ ds) es app h = elim (Bool-cases (same_folded d.application e.application)) [
  | inl same ↦
      let first : e ∷ ds ≡ es = ground arith in
      subst
        (λ es.
          find_entry es app
          ≡ (if same_folded e.application app then some e else find_entry (d ∷ ds) app))
        first (ground (arith, same_folded_trans d.application e.application app))
  | inr other ↦ elim (Option-cases (replaced e ds)) [
    | inl missing ↦ absurd (ground arith)
    | inr (rest, there) ↦
        let later : d ∷ rest ≡ es = ground arith in
        subst
          (λ es.
            find_entry es app
            ≡ (if same_folded e.application app then some e else find_entry (d ∷ ds) app))
          later
          (ground (
            arith,
            find-replaced e ds rest app there,
            same_folded_trans d.application app e.application,
            same_folded_trans e.application app e.application,
            same_folded_refl e.application,
          ))
  ]
]

find-appended :
    (e : Entry) (ds : List Entry) (app : Bytes)
    → replaced e ds ≡ none
    → find_entry (ds ++ e ∷ []) app
      ≡ (if same_folded e.application app then some e else find_entry ds app)
unfolding replaced find_entry
find-appended e [] app h = ground arith
find-appended e (d ∷ ds) app h = ground (
  arith,
  find-appended e ds app,
  same_folded_trans d.application app e.application,
  same_folded_trans e.application app e.application,
  same_folded_refl e.application,
)

-- The entries after a put that returned `CELLAR_OK`.
abbrev pub listed : Db → Entry → Option (List Entry) → List Entry
listed db e none = db.entries ++ e ∷ []
listed db e (some es) = es

put_new-entries :
    (granted : ℕ → Bool) (db after : Db) (e : Entry) (o : Option (List Entry))
    → put_new granted db e o ≡ (Status.ok, after)
    → after.entries ≡ listed db e o
put_new-entries granted db after e (some es) h = sym (ap (λ t. t.1.entries) h)
put_new-entries granted db after e none h = elim (Bool-cases (length db.entries == db.cap)) [
  | inl full ↦ elim (Bool-cases (granted (doubled db.cap))) [
    | inl yes_given ↦ let h' = rw (full, yes_given) at h in sym (ap (λ t. t.1.entries) h')
    | inr refused ↦ let h' = rw (full, refused) at h in absurd (cc)
  ]
  | inr room ↦ let h' = rw room at h in sym (ap (λ t. t.1.entries) h')
]

pub put-entries :
    (granted : ℕ → Bool) (db after : Db) (e : Entry)
    → put granted db e ≡ (Status.ok, after)
    → after.entries ≡ listed db e (replaced e db.entries)
unfolding put
put-entries granted db after e h = elim (Bool-cases (length e.application == 0)) [
  | inl empty ↦ let h' = rw empty at h in absurd (cc)
  | inr named ↦ put_new-entries granted db after e (replaced e db.entries) (rw named at h)
]

-- After `cellar_db_put` returned `CELLAR_OK`, `cellar_db_find` finds the entry under its
-- application's name, whatever the case of its letters, and every other name as before.
pub find-put :
    (granted : ℕ → Bool) (db after : Db) (e : Entry) (app : Bytes)
    → put granted db e ≡ (Status.ok, after)
    → find after app ≡ (if same_folded e.application app then some e else find db app)
unfolding put
find-put granted db after e app h = elim (Option-cases (replaced e db.entries)) [
  | inl fresh ↦
      let entries : after.entries ≡ db.entries ++ e ∷ [] =
        put-entries granted db after e h ∙ ap (listed db e) fresh in
      rw entries (find-appended e db.entries app fresh)
  | inr (es, there) ↦
      let entries : after.entries ≡ es =
        put-entries granted db after e h ∙ ap (listed db e) there in
      rw entries (find-replaced e db.entries es app there)
]
