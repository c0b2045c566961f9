-- ===== src/Prefix/Archive/Streams.antt =====
-- What a round of `cellar_prefix_restore` reads of what `cellar_prefix_backup` wrote.
use fantastic_octo_meme.Prelude.{
  ℕ, ◌/◌, ◌%◌, ◌^◌, ◌<◌, ◌≡◌, ◌∙◌, Bool, true, false, not, ◌&&◌, [], ◌∷◌, ◌++◌, length, take, drop,
  ltb, leb, ◌==◌, some, if◌then◌else◌, refl, ap, arith, length-append,
}
use fantastic_octo_meme.Memory.{Bytes}
use fantastic_octo_meme.Status.{Status, err_invalid_argument}
use fantastic_octo_meme.Util.{c_str}
use fantastic_octo_meme.Util.Endian.{u32-sum}
use fantastic_octo_meme.Text.{lacks}
use fantastic_octo_meme.Conf.Lookup.{append_assoc}
use fantastic_octo_meme.Conf.Back.{c_str-all}
use fantastic_octo_meme.Prefix.Archive.{
  wr_u32, rd_u32, entry, fread, finish, found, has_dots, with_content, with_path, with_length,
  round,
}

pub rd_u32-wr_u32 : (v : ℕ) (s : Bytes) → v < 2 ^ 32 → rd_u32 (wr_u32 v ++ s) ≡ some (v, s)
rd_u32-wr_u32 v s h =
    ap (λ n. some (n, s))
      (u32-sum (v % 256) ((v / 256) % 256) ((v / 65536) % 256) ((v / 16777216) % 256) (omega arith)
          (omega arith) (omega arith)
        ∙ omega arith)

take-length : (a b : Bytes) → take (length a) (a ++ b) ≡ a
take-length [] b = refl
take-length (c ∷ a) b = ap (λ t. c ∷ t) (take-length a b)

drop-length : (a b : Bytes) → drop (length a) (a ++ b) ≡ b
drop-length [] b = refl
drop-length (c ∷ a) b = drop-length a b

fread-append : (a b : Bytes) → fread (length a) (a ++ b) ≡ some (a, b)
unfolding fread
fread-append a b =
    let enough : leb (length a) (length (a ++ b)) ≡ true = ground (arith, length-append a b) in
    rw (enough, take-length a b, drop-length a b) refl

-- A length of 32 bits is read back.
length_back : (v : ℕ) (s : Bytes) → v < 2 ^ 32 → rd_u32 (wr_u32 (v % 2 ^ 32) ++ s) ≡ some (v, s)
length_back v s h =
    let same : v % 2 ^ 32 ≡ v = omega arith in
    rd_u32-wr_u32 (v % 2 ^ 32) s (omega arith) ∙ ap (λ n. some (n, s)) same

-- A file that goes through: its path is not empty, fits the array and is a text without dots, and
-- its length fits 32 bits.
abbrev pub is_path : Bytes → Bool
is_path rel = ltb 0 (length rel) && ltb (length rel) 512 && lacks 0 rel

abbrev pub can_pass : (ℕ → Bool) → Bytes → Bytes → Bool
can_pass granted rel content =
    is_path rel
    && not (has_dots rel)
    && ltb (length content) (2 ^ 32)
    && granted (if length content == 0 then 1 else length content)

module _ (granted : ℕ → Bool) (rel content rest : Bytes)
    (h : can_pass granted rel content ≡ true) where
  abbrev behind_path : Bytes
  behind_path = wr_u32 (length content % 2 ^ 32) ++ (content ++ rest)

  content_passes :
      with_content granted rel (some (length content, content ++ rest)) ≡ found rel content rest
  content_passes =
      let read = fread-append content rest in
      let given : granted (if length content == 0 then 1 else length content) ≡ true =
        ground arith in
      rw (given, read) refl

  path_passes : with_path granted (some (rel, behind_path)) ≡ found rel content rest
  path_passes =
      let whole : c_str rel ≡ rel = c_str-all rel (ground arith) in
      let plain : has_dots (c_str rel) ≡ false = rw whole (ground arith) in
      rw plain (
        ap (λ r. with_content granted r (rd_u32 behind_path)) whole
        ∙ ap (with_content granted rel)
            (length_back (length content) (content ++ rest) (ground arith))
        ∙ content_passes)

  length_passes :
      with_length granted (some (length rel, rel ++ behind_path)) ≡ found rel content rest
  length_passes =
      let not_zero : (length rel == 0) ≡ false = ground arith in
      let fits : leb 512 (length rel) ≡ false = ground arith in
      rw (not_zero, fits) (ap (with_path granted) (fread-append rel behind_path) ∙ path_passes)

  pub round-entry : round granted (entry rel content ++ rest) ≡ found rel content rest
  unfolding round
  round-entry =
      ap (λ t. with_length granted (rd_u32 (wr_u32 (length rel % 2 ^ 32) ++ t)))
        (append_assoc rel (wr_u32 (length content % 2 ^ 32) ++ content) rest)
      ∙ ap (with_length granted) (length_back (length rel) (rel ++ behind_path) (ground arith))
      ∙ length_passes

-- A path with dots ends the loop.
pub round-dots :
    (granted : ℕ → Bool) (rel content rest : Bytes)
    → is_path rel ≡ true
    → has_dots rel ≡ true
    → round granted (entry rel content ++ rest) ≡ finish err_invalid_argument
unfolding round
round-dots granted rel content rest h dots =
    let behind = wr_u32 (length content % 2 ^ 32) ++ (content ++ rest) in
    let whole : c_str rel ≡ rel = c_str-all rel (ground arith) in
    let not_zero : (length rel == 0) ≡ false = ground arith in
    let fits : leb 512 (length rel) ≡ false = ground arith in
    let ends : with_path granted (some (rel, behind)) ≡ finish err_invalid_argument =
      rw (whole, dots) refl in
    let tests : with_length granted (some (length rel, rel ++ behind))
        ≡ finish err_invalid_argument =
      rw (not_zero, fits) (ap (with_path granted) (fread-append rel behind) ∙ ends) in
    ap (λ t. with_length granted (rd_u32 (wr_u32 (length rel % 2 ^ 32) ++ t)))
      (append_assoc rel (wr_u32 (length content % 2 ^ 32) ++ content) rest)
    ∙ ap (with_length granted) (length_back (length rel) (rel ++ behind) (ground arith))
    ∙ tests

-- The terminator ends the loop, and so do less than four bytes.
pub round-end : (granted : ℕ → Bool) → round granted (wr_u32 0) ≡ finish Status.ok
unfolding round
round-end granted = ap (with_length granted) (rd_u32-wr_u32 0 [] (omega arith))

pub round-short :
    (granted : ℕ → Bool) (tail : Bytes) → length tail < 4 → round granted tail ≡ finish Status.ok
unfolding round
round-short granted [] h = refl
round-short granted (a ∷ []) h = refl
round-short granted (a ∷ b ∷ []) h = refl
round-short granted (a ∷ b ∷ c ∷ []) h = refl
round-short granted (a ∷ b ∷ c ∷ d ∷ s) h = absurd (omega arith)
