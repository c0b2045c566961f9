-- ===== src/Util/Paths.antt =====
-- `cellar_path_join`.
use mathlib.Core.List.{append_assoc}
use fantastic_octo_meme.Prelude.{
  lt→ltb, ℕ, zero, suc, ◌+◌, ◌-◌, ◌≤◌, ◌<◌, [], ◌∷◌, ◌++◌, length, get_or, take, drop, some,
  length-take, ◌≡◌, ap, ◌∙◌, arith, length-append, get_or-append_right,
}
use fantastic_octo_meme.Memory.{Bytes, done}
use fantastic_octo_meme.Memory.Laws.{splice-eq-done}
use fantastic_octo_meme.Util.Strings.{holding, IsTerminated}
use fantastic_octo_meme.Util.{last_byte, c_str, snprintf, text_of, joined, path_join}

last_byte-append : (a b : Bytes) → 0 < length b → last_byte (a ++ b) ≡ last_byte b
unfolding joined
last_byte-append a b h =
    let e : length (a ++ b) - 1 - length a ≡ length b - 1 = omega (arith, length-append a b) in
    get_or-append_right a b (length (a ++ b) - 1) 0 (omega (arith, length-append a b))
    ∙ ap (λ k. get_or b k 0) e

pub length-joined : (a b : Bytes) → length b ≤ length (joined a b)
unfolding joined
length-joined a b = ground (arith, length-append a b, length-append a (b'/' ∷ b))

last_byte-joined : (a b : Bytes) → 0 < length b → last_byte (joined a b) ≡ last_byte b
unfolding joined
last_byte-joined a b h =
    ground (
      arith,
      last_byte-append a b h,
      last_byte-append a (b'/' ∷ b),
      last_byte-append (b'/' ∷ []) b h,
    )

-- Joining three components gives one path, however the joins are nested, if the middle one is
-- not empty.
pub joined_assoc : (a b c : Bytes) → 0 < length b → joined (joined a b) c ≡ joined a (joined b c)
unfolding joined
joined_assoc a b c h = ground (
  arith,
  length-append a b,
  length-append a (b'/' ∷ b),
  length-append b c,
  last_byte-append a b h,
  last_byte-append a (b'/' ∷ b),
  last_byte-append (b'/' ∷ []) b h,
  append_assoc a b c,
  append_assoc a (b'/' ∷ b) c,
  append_assoc a (b'/' ∷ b) (b'/' ∷ c),
  append_assoc a b (b'/' ∷ c),
)

snprintf_lem :
    (x : ℕ) (dst text : Bytes) (m : ℕ)
    → suc m ≤ length (x ∷ dst)
    → snprintf (0 ∷ dst) (suc m) text ≡ done (holding (take m text) (x ∷ dst))
unfolding snprintf
snprintf_lem x dst text m fits =
    let t = take m text in
    let len = length-append t (0 ∷ []) in
    let e : 0 + length (t ++ 0 ∷ []) ≡ suc (length t) = omega arith in
    splice-eq-done (0 ∷ dst) 0 (t ++ 0 ∷ []) (omega (arith, length-take m text))
    ∙ rw e (ap done (append_assoc t (0 ∷ []) (drop (length t) dst)))

text_of_lem : (s : Bytes) → IsTerminated s → text_of (some s) ≡ done (c_str s)
unfolding text_of
text_of_lem s t = ground arith

-- With room for `n` bytes, `cellar_path_join` stores the joined path, cut to `n - 1` bytes, and a
-- zero, and leaves the rest of the destination as it was.
pub path_join_lem :
    (dst a b : Bytes) (n : ℕ)
    → 0 < n
    → n ≤ length dst
    → IsTerminated a
    → IsTerminated b
    → path_join dst n (some a) (some b)
      ≡ done (holding (take (n - 1) (joined (c_str a) (c_str b))) dst)
unfolding path_join
path_join_lem dst a b zero pos fits ta tb = absurd (omega arith)
path_join_lem [] a b (suc m) pos fits ta tb = absurd (omega arith)
path_join_lem (x ∷ dst) a b (suc m) pos fits ta tb =
    let e : suc m - 1 ≡ m = omega arith in
    rw (e, lt→ltb 0 (suc (length dst)) (omega arith), text_of_lem a ta, text_of_lem b tb)
      (snprintf_lem x dst (joined (c_str a) (c_str b)) m fits)
