-- ===== src/Db/Lines.antt =====
-- The lines that `fgets` reads into an array of 512 bytes, and the lines that are written.
use fantastic_octo_meme.Prelude.{
  ℕ, ◌-◌, ◌<◌, ◌≡◌, Bool, true, false, ◌&&◌, ◌||◌, List, [], ◌∷◌, ◌++◌, length, ltb, ◌==◌, refl,
  arith, if◌then◌else◌,
}
use fantastic_octo_meme.Memory.{Bytes}
use fantastic_octo_meme.Util.{c_str}
use fantastic_octo_meme.Text.{newline, lacks}
use fantastic_octo_meme.Conf.Back.{c_str-all}

-- The line that is read, with room for `room` more bytes in the array, and the lines after it. A
-- newline is cut off, and so is what stands behind a zero. At the end of the file stands one more
-- line, which is empty.
unfoldable pub cut : ℕ → Bytes → Bytes × List Bytes
cut room [] = ([], [])
cut room (c ∷ s) =
    let full = c == newline || room == 1 in
    let next = cut (if full then 511 else room - 1) s in
    let here = if c == newline then [] else if room == 1 then c ∷ [] else c ∷ next.0 in
    (here, if full then c_str next.0 ∷ next.1 else next.1)

unfoldable pub lines : Bytes → List Bytes
unfolding cut
lines s = let t = cut 511 s in c_str t.0 ∷ t.1

abbrev pub unlines : List Bytes → Bytes
unlines [] = []
unlines (l ∷ ls) = l ++ newline ∷ unlines ls

-- A line that the array holds whole.
abbrev pub is_line : Bytes → Bool
is_line l = lacks newline l && lacks 0 l && ltb (length l) 511

abbrev pub AllLines : List Bytes → Type 0
AllLines [] = Unit {0}
AllLines (l ∷ ls) = (is_line l ≡ true) × AllLines ls

cut-line :
    (room : ℕ) (l s : Bytes)
    → length l < room
    → lacks newline l ≡ true
    → cut room (l ++ newline ∷ s) ≡ (l, lines s)
unfolding cut lines
cut-line room [] s h e = ground arith
cut-line room (c ∷ l) s h e =
    let rest = cut-line (room - 1) l s (omega arith) (ground arith) in
    let other : (c == newline) ≡ false = ground arith in
    let wide : (room == 1) ≡ false = ground arith in rw (other, wide, rest) refl

-- Lines that were written are the lines that are read, and the empty one at the end.
pub lines-unlines : (ls : List Bytes) → AllLines ls → lines (unlines ls) ≡ ls ++ [] ∷ []
unfolding lines cut
lines-unlines [] h = refl
lines-unlines (l ∷ ls) (h, hs) =
    let rest = lines-unlines ls hs in
    rw (cut-line 511 l (unlines ls) (ground arith) (ground arith), c_str-all l (ground arith), rest)
      refl
