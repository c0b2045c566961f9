-- ===== src/Shell/Expand.antt =====
-- What `cellar_shell_expand` puts out: the text with its variables replaced, as far as it fits.
use fantastic_octo_meme.Prelude.{
  ℕ, zero, suc, ◌+◌, ◌-◌, ◌<◌, ◌≤◌, ◌≡◌, ◌≢◌, ◌∙◌, true, false, List, [], ◌∷◌, ◌++◌, length, take,
  ltb, leb, ◌==◌, none, some, refl, sym, ap, arith, Bool-cases, Option-cases, inl, inr, length-take,
  length-append, append_cons,
}
use fantastic_octo_meme.Memory.{Bytes}
use fantastic_octo_meme.Status.{Status}
use fantastic_octo_meme.Text.{clip, Lacks}
use fantastic_octo_meme.Shell.{Shell, to_percent, lookup_var, variable_at, expand_from, expand}

-- The whole text with its variables replaced; `skip` bytes belong to one that was.
unfoldable pub expanded : List Bytes → ℕ → Bytes → Bytes
expanded paths skip [] = []
expanded paths (suc skip) (c ∷ s) = expanded paths skip s
expanded paths zero (c ∷ s) = elim (variable_at paths c s) [
  | none ↦ c ∷ expanded paths 0 s
  | some (n, v) ↦ v ++ expanded paths (n + 1) s
]

take-append : (n : ℕ) (s t : Bytes) → length s ≤ n → take n (s ++ t) ≡ s ++ take (n - length s) t
take-append n [] t h = ap (λ k. take k t) (omega arith)
take-append zero (c ∷ s) t h = absurd (omega arith)
take-append (suc n) (c ∷ s) t h =
    let e : suc n - suc (length s) ≡ n - length s = omega arith in
    rw e (ap (λ x. c ∷ x) (take-append n s t (omega arith)))

take-append_long : (n : ℕ) (s t : Bytes) → n ≤ length s → take n (s ++ t) ≡ take n s
take-append_long zero s t h = refl
take-append_long (suc n) [] t h = absurd (omega arith)
take-append_long (suc n) (c ∷ s) t h = ap (λ x. c ∷ x) (take-append_long n s t (omega arith))

append-nil : (s : Bytes) → s ++ [] ≡ s
append-nil [] = refl
append-nil (c ∷ s) = ap (λ x. c ∷ x) (append-nil s)

take-zero : (n : ℕ) (s : Bytes) → n ≡ 0 → take n s ≡ []
take-zero zero s h = refl
take-zero (suc n) s h = absurd (omega arith)

take-nil : (n : ℕ) → take {A = ℕ} n [] ≡ []
take-nil zero = refl
take-nil (suc n) = refl

-- No more is put out where the array is full.
full :
    (paths : List Bytes) (size skip o : ℕ) (s : Bytes)
    → size ≤ o + 1
    → expand_from paths size skip o s ≡ []
unfolding expand_from
full paths size skip o [] h = refl
full paths size (suc skip) o (c ∷ s) h = full paths size skip o s h
full paths size zero o (c ∷ s) h =
    let no_room : ltb (o + 1) size ≡ false = ground arith in rw (no_room, expand_from) refl

module _ (paths : List Bytes) (size o c : ℕ) (s : Bytes) (room : o + 1 < size) where
  here : ltb (o + 1) size ≡ true
  here = ground arith

  -- One round of the loop, where there is room.
  plain :
      variable_at paths c s ≡ none
      → expand_from paths size 0 o (c ∷ s) ≡ c ∷ expand_from paths size 0 (o + 1) s
  unfolding expand_from
  plain e = rw (here, e, expand_from) refl

  long :
      (n : ℕ) (v : Bytes)
      → variable_at paths c s ≡ some (n, v)
      → size ≤ o + length v
      → expand_from paths size 0 o (c ∷ s) ≡ take (size - 1 - o) v
  unfolding expand_from
  long n v e h =
      let kept : leb size (o + length v) ≡ true = ground arith in
      let cut = take (size - 1 - o) v in
      let l = length-take (size - 1 - o) v in
      rw (here, e, kept, expand_from)
        (ap (λ t. cut ++ t) (full paths size (n + 1) (o + length cut) s (omega (arith, l)))
          ∙ append-nil cut)

  short :
      (n : ℕ) (v : Bytes)
      → variable_at paths c s ≡ some (n, v)
      → o + length v < size
      → expand_from paths size 0 o (c ∷ s) ≡ v ++ expand_from paths size (n + 1) (o + length v) s
  unfolding expand_from
  short n v e h =
      let kept : leb size (o + length v) ≡ false = ground arith in
      rw (here, e, kept, expand_from) refl

expanded-plain :
    (paths : List Bytes) (c : ℕ) (s : Bytes)
    → variable_at paths c s ≡ none
    → expanded paths 0 (c ∷ s) ≡ c ∷ expanded paths 0 s
unfolding expanded
expanded-plain paths c s e = rw (e, expanded) refl

pub expanded-variable :
    (paths : List Bytes) (c n : ℕ) (s v : Bytes)
    → variable_at paths c s ≡ some (n, v)
    → expanded paths 0 (c ∷ s) ≡ v ++ expanded paths (n + 1) s
unfolding expanded
expanded-variable paths c n s v e = rw (e, expanded) refl

expand_from-take :
    (paths : List Bytes) (size skip o : ℕ) (s : Bytes)
    → o < size
    → expand_from paths size skip o s ≡ take (size - 1 - o) (expanded paths skip s)
unfolding expand_from expanded
expand_from-take paths size skip o [] h = sym (take-nil (size - 1 - o))
expand_from-take paths size (suc skip) o (c ∷ s) h = expand_from-take paths size skip o s h
expand_from-take paths size zero o (c ∷ s) h = elim (Bool-cases (ltb (o + 1) size)) [
  | inr no_room ↦
      full paths size 0 o (c ∷ s) (ground arith)
      ∙ sym (take-zero (size - 1 - o) (expanded paths 0 (c ∷ s)) (ground arith))
  | inl fits ↦
      let room : o + 1 < size = ground arith in
      elim (Option-cases (variable_at paths c s)) [
        | inl none_here ↦
            let e : size - 1 - o ≡ suc (size - 1 - (o + 1)) = omega arith in
            plain paths size o c s room none_here
            ∙ rw (e, expanded-plain paths c s none_here)
                (ap (λ t. c ∷ t) (expand_from-take paths size 0 (o + 1) s room))
        | inr ((n, v), there) ↦
            let rest = expanded paths (n + 1) s in
            rw (expanded-variable paths c n s v there)
              (elim (Bool-cases (ltb (o + length v) size)) [
                | inl fits_too ↦
                    let small : o + length v < size = ground arith in
                    let e : size - 1 - (o + length v) ≡ size - 1 - o - length v = omega arith in
                    short paths size o c s room n v there small
                    ∙ ap (λ t. v ++ t)
                        (expand_from-take paths size (n + 1) (o + length v) s small
                          ∙ ap (λ k. take k rest) e)
                    ∙ sym (take-append (size - 1 - o) v rest (omega arith))
                | inr cut ↦
                    long paths size o c s room n v there (ground arith)
                    ∙ sym (take-append_long (size - 1 - o) v rest (ground arith))
              ])
      ]
]

-- The name up to the next sign.
to_percent-name :
    (name rest : Bytes) → Lacks b'%' name → to_percent (name ++ b'%' ∷ rest) ≡ some name
unfolding to_percent
to_percent-name [] rest h = refl
to_percent-name (c ∷ name) rest (ne, h) = let ih = to_percent-name name rest h in ground (arith, ih)

expanded-skip :
    (paths : List Bytes) (s rest : Bytes)
    → expanded paths (length s) (s ++ rest) ≡ expanded paths 0 rest
unfolding expanded
expanded-skip paths [] rest = refl
expanded-skip paths (c ∷ s) rest = expanded-skip paths s rest

variable_at-named :
    (paths : List Bytes) (name rest v : Bytes)
    → Lacks b'%' name
    → 0 < length name
    → lookup_var paths name ≡ some v
    → variable_at paths b'%' (name ++ b'%' ∷ rest) ≡ some (length name, v)
unfolding variable_at
variable_at-named paths name rest v lack some_name found =
    let e = to_percent-name name rest lack in
    let positive : ltb 0 (length name) ≡ true = ground arith in rw (e, found, positive) refl

expanded-named :
    (paths : List Bytes) (name rest v : Bytes)
    → Lacks b'%' name
    → 0 < length name
    → lookup_var paths name ≡ some v
    → expanded paths 0 (b'%' ∷ (name ++ b'%' ∷ rest)) ≡ v ++ expanded paths 0 rest
expanded-named paths name rest v lack some_name found =
    let behind = name ++ b'%' ∷ rest in
    let whole : length name + 1 ≡ length (name ++ b'%' ∷ []) =
      omega (arith, length-append name (b'%' ∷ [])) in
    expanded-variable paths b'%' (length name) behind v
      (variable_at-named paths name rest v lack some_name found)
    ∙ ap (λ t. v ++ t)
        (rw (whole, sym (append_cons name b'%' rest))
          (expanded-skip paths (name ++ b'%' ∷ []) rest))

variable_at-other :
    (paths : List Bytes) (c : ℕ) (s : Bytes) → c ≢ b'%' → variable_at paths c s ≡ none
unfolding variable_at
variable_at-other paths c s ne = let other : (c == b'%') ≡ false = ground arith in rw other refl

expanded-plain_text :
    (paths : List Bytes) (before s : Bytes)
    → Lacks b'%' before
    → expanded paths 0 (before ++ s) ≡ before ++ expanded paths 0 s
expanded-plain_text paths [] s h = refl
expanded-plain_text paths (c ∷ before) s (ne, h) =
    expanded-plain paths c (before ++ s) (variable_at-other paths c (before ++ s) ne)
    ∙ ap (λ t. c ∷ t) (expanded-plain_text paths before s h)

-- `cellar_shell_expand`, once the paths are set, puts out the path of the first variable in place of
-- its name and the two signs: what stands before it, without a percent sign, is kept, what stands
-- behind it is expanded in turn, and the array, which is not empty, holds as much of the whole as
-- fits.
pub expand_lem :
    (sh : Shell) (before name rest v : Bytes) (size : ℕ)
    → sh.inited ≡ true
    → 0 < size
    → Lacks b'%' before
    → Lacks b'%' name
    → 0 < length name
    → lookup_var sh.paths name ≡ some v
    → expand sh (some (before ++ b'%' ∷ (name ++ b'%' ∷ rest))) size
      ≡ (Status.ok, some (clip size (before ++ (v ++ expanded sh.paths 0 rest))))
unfolding expand
expand_lem sh before name rest v size ready pos plain_before plain_name some_name found =
    let text = before ++ b'%' ∷ (name ++ b'%' ∷ rest) in
    let zero_not : (size == 0) ≡ false = ground arith in
    let same : size - 1 - 0 ≡ size - 1 = omega arith in
    rw (zero_not, ready)
      (ap (λ t. (Status.ok, some t))
        (expand_from-take sh.paths size 0 0 text pos
          ∙ rw same (
              ap (clip size) (
                expanded-plain_text sh.paths before (b'%' ∷ (name ++ b'%' ∷ rest)) plain_before
                ∙ ap (λ t. before ++ t)
                    (expanded-named sh.paths name rest v plain_name some_name found)))))
