-- ===== src/Conf/Read.antt =====
-- Whatever a file holds, a field that is read from it is a text on one line that fits, or a number
-- of its type.
use fantastic_octo_meme.Prelude.{
  ℕ, zero, suc, ◌-◌, ◌^◌, ◌<◌, ◌≡◌, Bool, true, false, [], ◌∷◌, length-take, take, ltb, ◌==◌, refl,
  ap, sym, arith, Bool-cases, Option-cases, inl, inr, some,
}
use fantastic_octo_meme.Memory.{Bytes}
use fantastic_octo_meme.Util.{c_str}
use fantastic_octo_meme.Text.{newline, clip, lacks}
use fantastic_octo_meme.Text.Number.{
  ℤ, pos, negsuc, IsInt, low_word, as_int, strtol, strtoull, magnitude, signed, skip_spaces,
}
use fantastic_octo_meme.Conf.{
  field_at, line_of, find_from, find_field, field_text, field_int, field_u64, or_empty, buffered,
}
use fantastic_octo_meme.Conf.Back.{fits}

pub lacks-take : (b n : ℕ) (s : Bytes) → lacks b s ≡ true → lacks b (take n s) ≡ true
lacks-take b zero s h = ground arith
lacks-take b (suc n) [] h = refl
lacks-take b (suc n) (c ∷ s) h = ground (arith, lacks-take b n s)

pub clip-fits_one_line :
    (cap : ℕ) (s : Bytes)
    → 0 < cap
    → lacks newline s ≡ true
    → lacks 0 s ≡ true
    → fits cap (clip cap s) ≡ true
clip-fits_one_line cap s h l z =
    ground
      (arith, length-take (cap - 1) s, lacks-take newline (cap - 1) s l, lacks-take 0 (cap - 1) s z)

pub lacks-line_of : (p : Bytes) → lacks newline (line_of p) ≡ true
unfolding line_of
lacks-line_of [] = refl
lacks-line_of (c ∷ p) = ground (arith, lacks-line_of p)

pub zero-line_of : (p : Bytes) → lacks 0 p ≡ true → lacks 0 (line_of p) ≡ true
unfolding line_of
zero-line_of [] h = refl
zero-line_of (c ∷ p) h = ground (arith, zero-line_of p)

zero-field_at : (key p v : Bytes) → lacks 0 p ≡ true → field_at key p ≡ some v → lacks 0 v ≡ true
unfolding field_at
zero-field_at [] [] v h e = absurd (cc)
zero-field_at [] (c ∷ p) v h e = ground arith
zero-field_at (k ∷ key) [] v h e = absurd (cc)
zero-field_at (k ∷ key) (c ∷ p) v h e = ground (arith, zero-field_at key p v)

find_from-fits :
    (start : Bool) (key : Bytes) (cap : ℕ) (p v : Bytes)
    → 0 < cap
    → lacks 0 p ≡ true
    → find_from start key cap p ≡ some v
    → fits cap v ≡ true
unfolding find_from
find_from-fits start key cap [] v h z e = absurd (cc)
find_from-fits false key cap (c ∷ p) v h z e =
    find_from-fits (c == newline) key cap p v h (ground arith) e
find_from-fits true key cap (c ∷ p) v h z e =
    let later = find_from-fits (c == newline) key cap p v h (ground arith) in
    elim (Option-cases (field_at key (c ∷ p))) [
      | inl none_here ↦ later (rw none_here at e)
      | inr (u, here) ↦
          let z' = zero-field_at key (c ∷ p) u z here in
          let here' : some (clip cap (line_of u)) ≡ some v = rw here at e in
          rw (sym (ap or_empty here'))
            (clip-fits_one_line cap (line_of u) h (lacks-line_of u) (zero-line_of u z'))
    ]

pub lacks-c_str : (s : Bytes) → lacks 0 (c_str s) ≡ true
lacks-c_str [] = refl
lacks-c_str (c ∷ s) = ground (arith, lacks-c_str s)

pub field_text-fits :
    (cap room : ℕ) (key bytes : Bytes)
    → 0 < cap
    → fits cap (field_text (buffered room bytes) key cap) ≡ true
field_text-fits cap room key bytes h =
    elim (Option-cases (find_field (buffered room bytes) key cap)) [
      | inl e ↦ rw e (ground arith)
      | inr (v, e) ↦
          rw e (
            find_from-fits true key cap (buffered room bytes) v h (lacks-c_str (clip room bytes)) e)
    ]

as_int-IsInt : (m : ℕ) → m < 2 ^ 32 → IsInt (as_int m)
as_int-IsInt m h = elim (Bool-cases (ltb m (2 ^ 31))) [
  | inl low ↦ rw low (ground arith)
  | inr high ↦ rw high (ground arith)
]

pub low_word-small : (z : ℤ) → low_word z < 2 ^ 32
low_word-small (pos n) = omega arith
low_word-small (negsuc n) = omega arith

pub field_int-IsInt : (conf key : Bytes) (def : ℤ) → IsInt def → IsInt (field_int conf key def)
unfolding field_int
field_int-IsInt conf key def h = elim (Option-cases (find_field conf key 64)) [
  | inl e ↦ rw (e, field_int) h
  | inr (v, e) ↦ rw (e, field_int) (as_int-IsInt (low_word (strtol v)) (low_word-small (strtol v)))
]

strtoull-small : (s : Bytes) → strtoull s < 2 ^ 64
unfolding strtoull
strtoull-small s = let t = signed (skip_spaces s) in let m = magnitude t.1 in ground arith

pub field_u64-small : (conf key : Bytes) (def : ℕ) → def < 2 ^ 64 → field_u64 conf key def < 2 ^ 64
unfolding field_u64
field_u64-small conf key def h = elim (Option-cases (find_field conf key 64)) [
  | inl e ↦ rw (e, field_u64) h
  | inr (v, e) ↦ rw (e, field_u64) (strtoull-small v)
]
