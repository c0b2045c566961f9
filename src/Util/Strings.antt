-- ===== src/Util/Strings.antt =====
-- `cellar_strlcpy` and `cellar_strlcat`: what the destination holds, for every length.
use fantastic_octo_meme.Prelude.{
  ℕ, zero, suc, ◌+◌, ◌-◌, ◌≤◌, ◌<◌, [], ◌∷◌, ◌++◌, length, set, get_or, take, drop, ◌==◌, some, ◌≡◌,
  refl, sym, ap, ◌∙◌, inl, inr, arith, Bool-cases, lt→ltb, length-append, length-take,
}
use mathlib.Core.List.{append_assoc}
use fantastic_octo_meme.Memory.Laws.{slice-eq-done, splice-eq-done}
use fantastic_octo_meme.Memory.{Bytes, done, slice, splice}
use fantastic_octo_meme.Util.{
  c_str, store, strlcpy_from, strlcpy, scan_from, scan_room, strlcat_at, strlcat,
}

abbrev pub IsTerminated : Bytes → Type 0
IsTerminated s = length (c_str s) < length s

-- What `dst` holds once a text is written to its start, with its terminator.
abbrev pub holding : Bytes → Bytes → Bytes
holding text dst = text ++ (0 ∷ drop (suc (length text)) dst)

set_middle : (p : Bytes) (x v : ℕ) (s : Bytes) → set (p ++ (x ∷ s)) (length p) v ≡ p ++ (v ∷ s)
set_middle [] x v s = refl
set_middle (y ∷ p) x v s = ap (◌∷◌ y) (set_middle p x v s)

store_middle :
    (p : Bytes) (x v : ℕ) (s : Bytes) (i : ℕ)
    → i ≡ length p
    → store (p ++ (x ∷ s)) i v ≡ done (p ++ (v ∷ s))
store_middle p x v s i e = rw e (ground (arith, set_middle p x v s, length-append p (x ∷ s)))

-- The copying loop, with `p` already written and room for `k` more bytes and the zero.
strlcpy_from_lem :
    (src p rest : Bytes) (k i n : ℕ)
    → i ≡ length p
    → n ≡ i + suc k
    → n ≤ length (p ++ rest)
    → IsTerminated src
    → strlcpy_from i n (p ++ rest) src ≡ done (p ++ holding (take k (c_str src)) rest)
unfolding strlcpy_from
strlcpy_from_lem [] p rest k i n e room fits t = absurd (omega arith)
strlcpy_from_lem (c ∷ src) p [] k i n e room fits t = absurd (omega (arith, length-append p []))
strlcpy_from_lem (c ∷ src) p (x ∷ rest) zero i n e room fits t =
    ground (arith, store_middle p x 0 rest i e)
strlcpy_from_lem (c ∷ src) p (x ∷ rest) (suc k) i n e room fits t = elim (Bool-cases (c == 0)) [
  | inl stop ↦ rw stop (ground (arith, store_middle p x 0 rest i e))
  | inr more ↦
      let len = length-append p (c ∷ []) in
      let all = length-append p (x ∷ rest) in
      let ih =
        strlcpy_from_lem src (p ++ c ∷ []) rest k (i + 1) n (omega arith) (omega arith)
          (omega (arith, length-append (p ++ c ∷ []) rest)) (omega (arith, rw more at t)) in
      rw (more, lt→ltb (i + 1) n (omega arith), store_middle p x c rest i e)
        (simp append_assoc at ih)
]

-- The scanning loop of `cellar_strlcat`, over `dst`.
scan_from_lem :
    (s : Bytes) (k len limit : ℕ)
    → limit ≡ len + k
    → k ≤ length s
    → scan_from len limit s ≡ done (len + length (take k (c_str s)))
unfolding scan_from
scan_from_lem [] zero len limit e h = ground arith
scan_from_lem [] (suc k) len limit e h = absurd (omega arith)
scan_from_lem (c ∷ s) zero len limit e h = ground arith
scan_from_lem (c ∷ s) (suc k) len limit e h =
    ground (arith, scan_from_lem s k (len + 1) limit (omega arith) (omega arith))

scan_room_lem :
    (s : Bytes) (k slen dlen n : ℕ)
    → n ≡ suc (dlen + slen + k)
    → IsTerminated s
    → scan_room slen dlen n s ≡ done (slen + length (take k (c_str s)))
unfolding scan_room
scan_room_lem [] k slen dlen n e t = absurd (omega arith)
scan_room_lem (c ∷ s) zero slen dlen n e t = ground arith
scan_room_lem (c ∷ s) (suc k) slen dlen n e t =
    ground (arith, scan_room_lem s k (slen + 1) dlen n (omega arith))

pub c_str-prefix : (s : Bytes) (k : ℕ) → take (length (take k (c_str s))) s ≡ take k (c_str s)
c_str-prefix [] zero = refl
c_str-prefix [] (suc k) = refl
c_str-prefix (c ∷ s) zero = refl
c_str-prefix (c ∷ s) (suc k) = ground (arith, c_str-prefix s k)

pub drop-cons : (s : Bytes) (k : ℕ) → k < length s → drop k s ≡ get_or s k 0 ∷ drop (suc k) s
drop-cons [] k h = elim h [ ]
drop-cons (c ∷ s) zero h = refl
drop-cons (c ∷ s) (suc k) h = drop-cons s k (omega arith)

take-append : (m : ℕ) (a b : Bytes) → take m (a ++ b) ≡ take m a ++ take (m - length a) b
take-append zero a b = let e : 0 - length a ≡ 0 = omega arith in rw e
take-append (suc m) [] b = let e : suc m - 0 ≡ suc m = omega arith in rw e
take-append (suc m) (x ∷ a) b =
    let e : suc m - suc (length a) ≡ m - length a = omega arith in rw (e, take-append m a b)

-- With room for `n` bytes, `cellar_strlcpy` stores the source's text, cut to `n - 1` bytes, and a
-- zero, and leaves the rest of the destination as it was.
pub strlcpy_lem :
    (dst src : Bytes) (n : ℕ)
    → 0 < n
    → n ≤ length dst
    → IsTerminated src
    → strlcpy dst n (some src) ≡ done (holding (take (n - 1) (c_str src)) dst)
unfolding strlcpy
strlcpy_lem dst src zero pos fits t = absurd (omega arith)
strlcpy_lem dst src (suc m) pos fits t =
    let e : suc m - 1 ≡ m = omega arith in
    rw e (strlcpy_from_lem src [] dst m 0 (suc m) refl (omega arith) fits t)

module _ (dst src : Bytes) (m : ℕ) (fits : suc m ≤ length dst) (t : IsTerminated src) where
  -- What `cellar_strlcat` keeps in front, and what it appends.
  abbrev front : Bytes
  front = take m (c_str dst)

  abbrev piece : Bytes
  piece = take (m - length front) (c_str src)

  lengths : length front + length piece ≤ m
  lengths = omega (arith, length-take m (c_str dst), length-take (m - length front) (c_str src))

  found_dst : scan_from 0 m dst ≡ done (length front)
  found_dst = scan_from_lem dst m 0 m (omega arith) (omega arith) ∙ ap done (omega arith)

  found_src : scan_room 0 (length front) (suc m) src ≡ done (length piece)
  found_src =
      scan_room_lem src (m - length front) 0 (length front) (suc m)
        (omega (arith, length-take m (c_str dst))) t
      ∙ ap done (omega arith)

  piece_read : slice src 0 (length piece) ≡ done piece
  piece_read =
      slice-eq-done src 0 (length piece) (omega (arith, length-take (m - length front) (c_str src)))
      ∙ ap done (c_str-prefix src (m - length front))

  piece_written :
      splice dst (length front) piece
      ≡ done (
          (front ++ piece)
          ++ (get_or dst (length front + length piece) 0
              ∷ drop (suc (length front + length piece)) dst))
  piece_written =
      splice-eq-done dst (length front) piece (omega (arith, lengths))
      ∙ ap done (
          rw (
            c_str-prefix dst m,
            drop-cons dst (length front + length piece) (omega (arith, lengths)),
            append_assoc,
          ))

  strlcat_at_lem :
      strlcat_at (length front) (suc m) dst (some src) ≡ done (holding (front ++ piece) dst)
  unfolding strlcat_at
  strlcat_at_lem =
      rw (found_src, piece_read, piece_written)
        (store_middle (front ++ piece) _ 0 _ (length front + length piece)
            (sym (length-append front piece))
          ∙ rw (length-append front piece))

-- With room for `n` bytes, `cellar_strlcat` leaves the text of the destination and that of the
-- source, joined and cut to `n - 1` bytes, and a zero; what lies behind stays as it was. It needs
-- no zero in the destination.
pub strlcat_lem :
    (dst src : Bytes) (n : ℕ)
    → 0 < n
    → n ≤ length dst
    → IsTerminated src
    → strlcat dst n (some src) ≡ done (holding (take (n - 1) (c_str dst ++ c_str src)) dst)
unfolding strlcat
strlcat_lem dst src zero pos fits t = absurd (omega arith)
strlcat_lem dst src (suc m) pos fits t =
    let e : suc m - 1 ≡ m = omega arith in
    let same : take m (c_str dst ++ c_str src) ≡ front dst src m fits t ++ piece dst src m fits t =
      take-append m (c_str dst) (c_str src)
      ∙ ap (λ k. take m (c_str dst) ++ take k (c_str src))
          (omega (arith, length-take m (c_str dst))) in
    rw (e, same, found_dst dst src m fits t) (strlcat_at_lem dst src m fits t)
