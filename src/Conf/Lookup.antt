-- ===== src/Conf/Lookup.antt =====
-- Reading a field of a file that was written line by line is a lookup in the list of its fields.
use fantastic_octo_meme.Prelude.{
  ℕ, ◌≡◌, ◌≢◌, ◌∙◌, Bool, true, false, not, ◌&&◌, [], ◌∷◌, ◌++◌, ◌==◌, refl, ap, sym, arith,
  Bool-cases, inl, inr, if◌then◌else◌, Option, some, none,
}
use fantastic_octo_meme.Memory.{Bytes}
use fantastic_octo_meme.Text.{newline, clip, Lacks, lacks, same_text}
use fantastic_octo_meme.Conf.{
  field_at, line_of, find_from, find_field, line, Fields, render, document,
}

-- A key that lines can be looked up by: no `=`, no newline, not empty, and no comment.
abbrev pub is_key : Bytes → Bool
is_key [] = false
is_key (c ∷ s) = not (c == b'#') && lacks b'=' (c ∷ s) && lacks newline (c ∷ s)

-- The fields are on one line each, and their keys are keys.
abbrev pub Clean : Fields → Type 0
Clean [] = Unit {0}
Clean ((key, value) ∷ fs) = (is_key key ≡ true) × Lacks newline value × Clean fs

abbrev pub value_of : Bytes → Fields → Option Bytes
value_of key [] = none
value_of key ((k, v) ∷ fs) = if same_text key k then some v else value_of key fs

pub append_assoc : (a b c : Bytes) → (a ++ b) ++ c ≡ a ++ (b ++ c)
append_assoc [] b c = refl
append_assoc (x ∷ a) b c = ap (λ t. x ∷ t) (append_assoc a b c)

-- The rest of a line is skipped.
skip_line :
    (key : Bytes) (cap : ℕ) (l rest : Bytes)
    → Lacks newline l
    → find_from false key cap (l ++ newline ∷ rest) ≡ find_from true key cap rest
unfolding find_from
skip_line key cap [] rest h = refl
skip_line key cap (c ∷ l) rest (ne, h) = ground (arith, skip_line key cap l rest h)

line_of-line : (l rest : Bytes) → Lacks newline l → line_of (l ++ newline ∷ rest) ≡ l
unfolding line_of
line_of-line [] rest h = refl
line_of-line (c ∷ l) rest (ne, h) = ground (arith, line_of-line l rest h)

-- The key at the start of a line is found exactly if it is the line's key.
field_at-line :
    (key k rest : Bytes)
    → lacks b'=' key ≡ true
    → lacks b'=' k ≡ true
    → field_at key (k ++ b'=' ∷ rest) ≡ (if same_text key k then some rest else none)
unfolding field_at same_text
field_at-line [] [] rest h g = refl
field_at-line [] (c ∷ k) rest h g = ground arith
field_at-line (c ∷ key) [] rest h g = ground arith
field_at-line (c ∷ key) (d ∷ k) rest h g = ground (arith, field_at-line key k rest)

pub lacks→Lacks : (b : ℕ) (s : Bytes) → lacks b s ≡ true → Lacks b s
lacks→Lacks b [] h = tt
lacks→Lacks b (c ∷ s) h = ground (arith, lacks→Lacks b s)

pub Lacks-append : (b : ℕ) (s t : Bytes) → Lacks b s → Lacks b t → Lacks b (s ++ t)
Lacks-append b [] t h g = g
Lacks-append b (c ∷ s) t (ne, h) g = (ne, Lacks-append b s t h g)

-- A line and the text behind it, with the newline in between.
pub line-append : (k v rest : Bytes) → line k v ++ rest ≡ (k ++ b'=' ∷ v) ++ newline ∷ rest
line-append k v rest =
    append_assoc k (b'=' ∷ (v ++ newline ∷ [])) rest
    ∙ ap (λ t. k ++ b'=' ∷ t) (append_assoc v (newline ∷ []) rest)
    ∙ sym (append_assoc k (b'=' ∷ v) (newline ∷ rest))

-- What the loop does at the start of a text that is not a comment.
at_start :
    (key : Bytes) (cap c : ℕ) (p : Bytes)
    → c ≢ newline
    → find_from true key cap (c ∷ p) ≡ elim (field_at key (c ∷ p)) [
      | some v ↦ some (clip cap (line_of v))
      | none ↦ find_from false key cap p
    ]
unfolding find_from
at_start key cap c p ne = ground arith

find_from-line :
    (key k v rest : Bytes) (cap : ℕ)
    → is_key key ≡ true
    → is_key k ≡ true
    → Lacks newline v
    → find_from true key cap (line k v ++ rest)
      ≡ (if same_text key k then some (clip cap v) else find_from true key cap rest)
find_from-line [] k v rest cap h g l = absurd (ground arith)
find_from-line (e ∷ key) [] v rest cap h g l = absurd (ground arith)
find_from-line (e ∷ key) (d ∷ k) v rest cap h g l =
    let whole = d ∷ k in
    let tail = k ++ b'=' ∷ v in
    let tail_clean : Lacks newline tail =
      Lacks-append newline k (b'=' ∷ v) (lacks→Lacks newline k (ground arith))
        ((λ x. absurd (omega arith)), l) in
    let behind = v ++ newline ∷ rest in
    let found = field_at-line (e ∷ key) whole behind (ground arith) (ground arith) in
    let shape : whole ++ b'=' ∷ behind ≡ d ∷ (tail ++ newline ∷ rest) =
      sym (append_assoc whole (b'=' ∷ v) (newline ∷ rest)) in
    let found' = rw shape at found in
    rw (line-append whole v rest) (
      at_start (e ∷ key) cap d (tail ++ newline ∷ rest) (ground arith)
      ∙ elim (Bool-cases (same_text (e ∷ key) whole)) [
        | inl same ↦ rw (found', same) (ap (λ t. some (clip cap t)) (line_of-line v rest l))
        | inr other ↦ rw (found', other) (skip_line (e ∷ key) cap tail rest tail_clean)
      ])

-- The clipped value, if there is one.
abbrev pub clipped : ℕ → Option Bytes → Option Bytes
clipped cap none = none
clipped cap (some v) = some (clip cap v)

find_from-render :
    (key : Bytes) (cap : ℕ) (fs : Fields)
    → is_key key ≡ true
    → Clean fs
    → find_from true key cap (render fs) ≡ clipped cap (value_of key fs)
unfolding find_from
find_from-render key cap [] h clean = refl
find_from-render key cap ((k, v) ∷ fs) h (g, l, clean) =
    let rest = find_from-render key cap fs h clean in
    find_from-line key k v (render fs) cap h g l ∙ ground (arith, rest)

field_at-comment : (key rest : Bytes) → is_key key ≡ true → field_at key (b'#' ∷ rest) ≡ none
unfolding field_at
field_at-comment [] rest h = absurd (ground arith)
field_at-comment (c ∷ key) rest h = ground arith

-- In a file of clean fields behind a comment, `find_field` finds the first field with the key, cut
-- to the array, and nothing if there is none.
pub find_field-document :
    (comment key : Bytes) (cap : ℕ) (fs : Fields)
    → is_key key ≡ true
    → Lacks newline comment
    → Clean fs
    → find_field (document comment fs) key cap ≡ clipped cap (value_of key fs)
find_field-document comment key cap fs h one_line clean =
    at_start key cap b'#' (comment ++ newline ∷ render fs) (λ e. absurd (omega arith))
    ∙ rw (field_at-comment key (comment ++ newline ∷ render fs) h)
        (skip_line key cap comment (render fs) one_line ∙ find_from-render key cap fs h clean)
