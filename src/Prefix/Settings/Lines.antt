-- ===== src/Prefix/Settings/Lines.antt =====
-- The lines of a rebuilt file.
use fantastic_octo_meme.Prelude.{
  ℕ, ◌+◌, ◌<◌, ◌≡◌, ◌≢◌, ◌∙◌, Bool, true, false, List, [], ◌∷◌, ◌++◌, length, ◌==◌, none, some,
  if◌then◌else◌, refl, sym, ap, arith, Bool-cases, Option-cases, inl, inr, length-append,
  append_nil,
}
use fantastic_octo_meme.Memory.{Bytes}
use fantastic_octo_meme.Text.{newline, Lacks, lacks, same_text}
use fantastic_octo_meme.Text.Same.{same_text-itself, same_text→eq}
use fantastic_octo_meme.Conf.{field_at, line}
use fantastic_octo_meme.Conf.Lookup.{append_assoc, Lacks-append}
use fantastic_octo_meme.Conf.Back.{take-all}
use fantastic_octo_meme.Prefix.Settings.{
  on_first, lines_of, setting, has_key, replaced, new_line, rebuilt,
}

-- All lines are without a newline.
abbrev AllLines : List Bytes → Type 0
AllLines [] = Unit {0}
AllLines (l ∷ ls) = Lacks newline l × AllLines ls

on_first-AllLines : (c : ℕ) (ls : List Bytes) → c ≢ newline → AllLines ls → AllLines (on_first c ls)
on_first-AllLines c [] ne h = ((ne, tt), tt)
on_first-AllLines c (l ∷ ls) ne (h, hs) = ((ne, h), hs)

lines_of-AllLines : (s : Bytes) → AllLines (lines_of s)
unfolding lines_of
lines_of-AllLines [] = tt
lines_of-AllLines (c ∷ s) = elim (Bool-cases (c == newline)) [
  | inl end ↦ rw end (tt, lines_of-AllLines s)
  | inr other ↦ rw other (on_first-AllLines c (lines_of s) (ground arith) (lines_of-AllLines s))
]

-- A line in front of a text is its first line.
pub lines_of-line :
    (l rest : Bytes) → Lacks newline l → lines_of (l ++ newline ∷ rest) ≡ l ∷ lines_of rest
unfolding lines_of
lines_of-line [] rest h = refl
lines_of-line (c ∷ l) rest (ne, h) =
    let other : (c == newline) ≡ false = ground arith in rw (other, lines_of-line l rest h) refl

-- The list of lines after the change.
pub updated : Bytes → Bytes → List Bytes → List Bytes
updated key nl [] = []
updated key nl (l ∷ ls) = (if has_key key l then nl else l) ∷ updated key nl ls

pub any_key : Bytes → List Bytes → Bool
any_key key [] = false
any_key key (l ∷ ls) = let rest = any_key key ls in if has_key key l then true else rest

-- What `replaced` writes are the lines after the change, in front of any text.
replaced-lines :
    (key nl : Bytes) (ls : List Bytes) (rest : Bytes)
    → Lacks newline nl
    → AllLines ls
    → lines_of ((replaced key (nl ++ newline ∷ []) ls).0 ++ rest)
      ≡ updated key nl ls ++ lines_of rest
unfolding replaced updated
replaced-lines key nl [] rest one h = refl
replaced-lines key nl (l ∷ ls) rest one (h, hs) =
    let tail = (replaced key (nl ++ newline ∷ []) ls).0 in
    let ih = replaced-lines key nl ls rest one hs in
    elim (Bool-cases (has_key key l)) [
      | inl yes_key ↦ rw yes_key (
          ap lines_of (
            append_assoc (nl ++ newline ∷ []) tail rest
            ∙ append_assoc nl (newline ∷ []) (tail ++ rest))
          ∙ lines_of-line nl (tail ++ rest) one
          ∙ ap (λ t. nl ∷ t) ih)
      | inr no_key ↦ rw no_key (
          ap lines_of (append_assoc l (newline ∷ tail) rest)
          ∙ lines_of-line l (tail ++ rest) h
          ∙ ap (λ t. l ∷ t) ih)
    ]

replaced-any : (key nline : Bytes) (ls : List Bytes) → (replaced key nline ls).1 ≡ any_key key ls
unfolding replaced any_key
replaced-any key nline [] = refl
replaced-any key nline (l ∷ ls) = ground (arith, replaced-any key nline ls)

-- The lines of a rebuilt text.
pub lines_of-rebuilt :
    (key value buf : Bytes)
    → Lacks newline key
    → Lacks newline value
    → length key + length value + 2 < 520
    → lines_of (rebuilt key value buf)
      ≡ updated key (key ++ b'=' ∷ value) (lines_of buf)
        ++ (if any_key key (lines_of buf) then [] else (key ++ b'=' ∷ value) ∷ [])
unfolding rebuilt
lines_of-rebuilt key value buf k v short =
    let nl = key ++ b'=' ∷ value in
    let nline = nl ++ newline ∷ [] in
    let ls = lines_of buf in
    let one : Lacks newline nl =
      Lacks-append newline key (b'=' ∷ value) k ((λ x. absurd (omega arith)), v) in
    let whole : new_line key value ≡ nline =
      take-all 519 (line key value) (
        omega (
          arith,
          length-append key (b'=' ∷ (value ++ newline ∷ [])),
          length-append value (newline ∷ []),
        ))
      ∙ sym (append_assoc key (b'=' ∷ value) (newline ∷ [])) in
    let all = lines_of-AllLines buf in
    elim (Bool-cases (any_key key ls)) [
      | inl old ↦
          rw (whole, replaced-any key nline ls, old)
            (ap lines_of (sym (append_nil (replaced key nline ls).0))
              ∙ replaced-lines key nl ls [] one all)
      | inr new ↦
          rw (whole, replaced-any key nline ls, new)
            (replaced-lines key nl ls nline one all
              ∙ ap (λ t. updated key nl ls ++ t) (lines_of-line nl [] one))
    ]

-- A line has at most one of two keys without an equals sign.
field_at-keys :
    (key other l : Bytes)
    → lacks b'=' key ≡ true
    → lacks b'=' other ≡ true
    → has_key key l ≡ true
    → has_key other l ≡ same_text other key
unfolding field_at same_text
field_at-keys [] [] [] h g e = absurd (ground arith)
field_at-keys [] [] (c ∷ l) h g e = e
field_at-keys [] (d ∷ other) [] h g e = absurd (ground arith)
field_at-keys [] (d ∷ other) (c ∷ l) h g e = ground arith
field_at-keys (k ∷ key) other [] h g e = absurd (ground arith)
field_at-keys (k ∷ key) [] (c ∷ l) h g e = ground arith
field_at-keys (k ∷ key) (d ∷ other) (c ∷ l) h g e = ground (arith, field_at-keys key other l)

-- The new line, under a key.
pub field_at-new :
    (other key value : Bytes)
    → lacks b'=' other ≡ true
    → lacks b'=' key ≡ true
    → field_at other (key ++ b'=' ∷ value) ≡ (if same_text other key then some value else none)
unfolding field_at same_text
field_at-new [] [] value h g = refl
field_at-new [] (c ∷ key) value h g = ground arith
field_at-new (c ∷ other) [] value h g = ground arith
field_at-new (c ∷ other) (d ∷ key) value h g = ground (arith, field_at-new other key value)

-- The first line with the key has the new value.
setting-own :
    (key value : Bytes) (ls : List Bytes)
    → lacks b'=' key ≡ true
    → setting key (
        updated key (key ++ b'=' ∷ value) ls
        ++ (if any_key key ls then [] else (key ++ b'=' ∷ value) ∷ []))
      ≡ some value
unfolding setting updated any_key
setting-own key value [] k =
    let new = field_at-new key key value k k in
    let same = same_text-itself key in ground (arith, new, same)
setting-own key value (l ∷ ls) k =
    let new = field_at-new key key value k k in
    let same = same_text-itself key in
    let ih = setting-own key value ls k in
    elim (Option-cases (field_at key l)) [
      | inl no_key ↦ ground (arith, no_key, ih)
      | inr (v, found) ↦ ground (arith, found, new, same)
    ]

-- Every other key has the value that it had.
setting-other :
    (other key value : Bytes) (ls : List Bytes) (b : Bool)
    → lacks b'=' other ≡ true
    → lacks b'=' key ≡ true
    → same_text other key ≡ false
    → setting other
        (updated key (key ++ b'=' ∷ value) ls ++ (if b then [] else (key ++ b'=' ∷ value) ∷ []))
      ≡ setting other ls
unfolding setting updated
setting-other other key value [] true o k ne = refl
setting-other other key value [] false o k ne =
    let new = field_at-new other key value o k in ground (arith, new)
setting-other other key value (l ∷ ls) b o k ne =
    let new = field_at-new other key value o k in
    let ih = setting-other other key value ls b o k ne in
    let keys = field_at-keys key other l k o in
    elim (Option-cases (field_at key l)) [
      | inl no_key ↦ ground (arith, no_key, ih)
      | inr (v, found) ↦ ground (arith, found, new, keys, ih)
    ]

-- The value of any key in the lines after the change.
pub setting-updated :
    (other key value : Bytes) (ls : List Bytes)
    → lacks b'=' other ≡ true
    → lacks b'=' key ≡ true
    → setting other (
        updated key (key ++ b'=' ∷ value) ls
        ++ (if any_key key ls then [] else (key ++ b'=' ∷ value) ∷ []))
      ≡ (if same_text other key then some value else setting other ls)
setting-updated other key value ls o k = elim (Bool-cases (same_text other key)) [
  | inl same ↦ rw same (rw (same_text→eq other key same) (setting-own key value ls k))
  | inr different ↦ rw different (setting-other other key value ls (any_key key ls) o k different)
]
