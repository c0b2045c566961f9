-- ===== src/Prefix/Archive/Ends.antt =====
-- The loop of `cellar_prefix_restore` ends on every archive.
use fantastic_octo_meme.Prelude.{
  ℕ, zero, suc, ◌+◌, ◌-◌, ◌<◌, ◌≤◌, ◌≡◌, Bool, [], ◌∷◌, length, take, drop, leb, ◌==◌, Option, none,
  some, if◌then◌else◌, refl, arith, Bool-cases, Option-cases, inl, inr, ◌⊎◌, length-drop,
}
use fantastic_octo_meme.Memory.{Bytes}
use fantastic_octo_meme.Status.{Status, err_invalid_argument}
use fantastic_octo_meme.Util.{c_str}
use fantastic_octo_meme.Files.{FileSystem}
use fantastic_octo_meme.Prefix.Archive.{
  rd_u32, fread, Round, finish, found, has_dots, with_content, with_path, with_length, round,
  restore_loop, store_file, prefix_restore,
}
use fantastic_octo_meme.Shell.{Shell}
use fantastic_octo_meme.Text.{codes, same_text}
use fantastic_octo_meme.Workspace.{valid_name}
use fantastic_octo_meme.Prefix.{prefix_path}
use fantastic_octo_meme.Prefix.Config.{prefix_create}

-- Fewer bytes than a number are left of the archive after a round with a file.
abbrev Shrinks : ℕ → Round → Type 0
Shrinks n (finish st) = Unit {0}
Shrinks n (found rel content rest) = length rest < n

-- Bytes that were read leave no more than there were.
abbrev Left : {A : Type 0} → ℕ → Option (A × Bytes) → Type 0
Left n none = Unit {0}
Left n (some (a, rest)) = length rest ≤ n

rd_u32-Left : (s : Bytes) → Left (length s - 1) (rd_u32 s)
rd_u32-Left [] = tt
rd_u32-Left (a ∷ []) = tt
rd_u32-Left (a ∷ b ∷ []) = tt
rd_u32-Left (a ∷ b ∷ c ∷ []) = tt
rd_u32-Left (a ∷ b ∷ c ∷ d ∷ s) = omega arith

fread-Left : (n : ℕ) (s : Bytes) → Left (length s) (fread n s)
unfolding fread
fread-Left n s = elim (Bool-cases (leb n (length s))) [
  | inl enough ↦ rw enough (omega (arith, length-drop n s))
  | inr short ↦ rw short tt
]

content-Shrinks :
    (granted : ℕ → Bool) (rel : Bytes) (n k : ℕ) (o : Option (ℕ × Bytes))
    → Left k o
    → k < n
    → Shrinks n (with_content granted rel o)
content-Shrinks granted rel n k none l h = tt
content-Shrinks granted rel n k (some (dlen, s)) l h =
    elim (Bool-cases (granted (if dlen == 0 then 1 else dlen))) [
      | inr refused ↦ rw refused tt
      | inl given ↦ elim (Option-cases (fread dlen s)) [
        | inl short ↦ rw (given, short) tt
        | inr ((content, rest), read) ↦
            let left : length rest ≤ length s = rw read at (fread-Left dlen s) in
            rw (given, read) (omega arith)
      ]
    ]

path-Shrinks :
    (granted : ℕ → Bool) (n k : ℕ) (o : Option (Bytes × Bytes))
    → Left k o
    → k < n
    → Shrinks n (with_path granted o)
path-Shrinks granted n k none l h = tt
path-Shrinks granted n k (some (rel, s)) l h = elim (Bool-cases (has_dots (c_str rel))) [
  | inl dots ↦ rw dots tt
  | inr plain ↦ rw plain (
      content-Shrinks granted (c_str rel) n (length s - 1) (rd_u32 s) (rd_u32-Left s) (omega arith))
]

length-Shrinks :
    (granted : ℕ → Bool) (n k : ℕ) (o : Option (ℕ × Bytes))
    → Left k o
    → k < n
    → Shrinks n (with_length granted o)
length-Shrinks granted n k none l h = tt
length-Shrinks granted n k (some (plen, s)) l h = elim (Bool-cases (plen == 0)) [
  | inl done ↦ rw done tt
  | inr more ↦ elim (Bool-cases (leb 512 plen)) [
    | inl long ↦ rw (more, long) tt
    | inr fits ↦
        rw (more, fits)
          (path-Shrinks granted n (length s) (fread plen s) (fread-Left plen s) (omega arith))
  ]
]

round-Shrinks : (granted : ℕ → Bool) (s : Bytes) → Shrinks (length s) (round granted s)
unfolding round
round-Shrinks granted [] = tt
round-Shrinks granted (c ∷ s) =
    let e : suc (length s) - 1 ≡ length s = omega arith in
    let left : Left (length s) (rd_u32 (c ∷ s)) = rw e at (rd_u32-Left (c ∷ s)) in
    length-Shrinks granted (suc (length s)) (length s) (rd_u32 (c ∷ s)) left (omega arith)

Round-cases :
    (r : Round)
    → ((st : Status) × (r ≡ finish st))
      ⊎ ((rel : Bytes) × (content : Bytes) × (rest : Bytes) × (r ≡ found rel content rest))
Round-cases (finish st) = inl (st, refl)
Round-cases (found rel content rest) = inr (rel, content, rest, refl)

module _ {F : Type 0} (os : FileSystem F) where
  -- The loop of `cellar_prefix_restore` ends on every archive, with a status: one round more than
  -- there are bytes is enough.
  pub restore_loop_ends :
      (granted : ℕ → Bool) (fuel : ℕ) (fs : F) (bottle s : Bytes)
      → length s < fuel
      → (st : Status) × (g : F) × (restore_loop os granted fuel fs bottle s ≡ some (st, g))
  unfolding restore_loop
  restore_loop_ends granted zero fs bottle s h = elim h [ ]
  restore_loop_ends granted (suc fuel) fs bottle s h = elim (Round-cases (round granted s)) [
    | inl (st, e) ↦ (st, fs, rw (e, restore_loop) refl)
    | inr (rel, content, rest, e) ↦
        let less : length rest < length s = rw e at (round-Shrinks granted s) in
        let (st, g, ends) =
          restore_loop_ends granted fuel (store_file os fs bottle rel content) bottle rest
            (omega arith) in
        (st, g, rw (e, restore_loop) ends)
  ]

  -- `cellar_prefix_restore` ends with a status, whatever the archive holds.
  pub restore_ends :
      (granted : ℕ → Bool) (fs : F) (sh : Shell) (root name archive : Option Bytes)
      → (st : Status) × (g : F) × (prefix_restore os granted fs sh root name archive ≡ some (st, g))
  unfolding prefix_restore
  restore_ends granted fs sh none name archive = (err_invalid_argument, fs, refl)
  restore_ends granted fs sh (some root) name none = (err_invalid_argument, fs, refl)
  restore_ends granted fs sh (some root) name (some archive) = elim (Bool-cases (valid_name name)) [
    | inr wrong ↦ (err_invalid_argument, fs, rw wrong refl)
    | inl valid ↦ elim (Option-cases (os.read fs archive)) [
      | inl missing ↦ (err_invalid_argument, fs, rw (valid, missing) refl)
      | inr (bytes, there) ↦ elim (Bool-cases (same_text (take 4 bytes) (codes "CBK1"))) [
        | inr other ↦ (err_invalid_argument, fs, rw (valid, there, other) refl)
        | inl magic ↦
            let s = drop 4 bytes in
            let (st, g, ends) =
              restore_loop_ends granted (length s + 1) (prefix_create os fs sh (some root) name).0.1
                (prefix_path 640 (some root) name) s (omega arith) in
            (st, g, rw (valid, there, magic) ends)
      ]
    ]
  ]
