-- ===== src/Ring/Fifo.antt =====
-- The operations on a valid ring act on its contents as on a bounded queue.
use fantastic_octo_meme.Prelude.{
  ℕ, zero, suc, ◌+◌, ◌-◌, ◌%◌, ◌^◌, ◌≤◌, ◌<◌, ◌≡◌, refl, sym, ap, ◌∙◌, arith, [], ◌∷◌, ◌++◌, length,
  get_or, ltb, ◌==◌, min, if◌then◌else◌, Bool-cases, inl, inr, take, drop, length-take, length-drop,
  length-append, eq_of_get_or, get_or-take, get_or-drop, get_or-append_left, get_or-append_right,
  some,
}
use fantastic_octo_meme.Memory.{Bytes, done}
use fantastic_octo_meme.Ring.{Ring, used, copy_out, peek, consume, discard}
use fantastic_octo_meme.Ring.Queue.{
  IsRing, contents, wrapped_slot, length-contents, front, front-lt, get_or-contents,
}
use fantastic_octo_meme.Ring.Valid.{slot, copy_out_circle}

-- What a copy of `n` bytes from the front leaves in its destination.
copied :
    (r : Ring) (dst out : Bytes) (n : ℕ)
    → IsRing r
    → n ≤ used r
    → n ≤ length dst
    → length out ≡ length dst
    → ((i : ℕ)
        → get_or out i 0
          ≡ (if ltb i n then get_or r.buf (slot r.capacity (front r) i) 0 else get_or dst i 0))
    → out ≡ take n (contents r) ++ drop n dst
copied r dst out n valid few room len at =
    let l = length-contents r in
    eq_of_get_or out (take n (contents r) ++ drop n dst) 0
      (omega (
        arith,
        length-append (take n (contents r)) (drop n dst),
        length-take n (contents r),
        length-drop n dst,
      ))
      λ i lt.
        let behind : n ≤ i → get_or dst (n + (i - n)) 0 ≡ get_or dst i 0 =
          λ le. ap (λ k. get_or dst k 0) (omega arith) in
        ground (
          arith,
          l,
          at i,
          get_or-contents r valid i,
          length-take n (contents r),
          get_or-append_left (take n (contents r)) (drop n dst) i 0,
          get_or-append_right (take n (contents r)) (drop n dst) i 0,
          get_or-take n (contents r) i 0,
          get_or-drop n dst (i - n) 0,
          behind,
        )

copy_out_lem :
    (r : Ring) (dst : Bytes) (n : ℕ)
    → IsRing r
    → n ≤ used r
    → n ≤ length dst
    → copy_out r dst n ≡ done (take n (contents r) ++ drop n dst)
copy_out_lem r dst n valid few room =
    let (e, _, _, _, whole, _, _, full) = valid in
    let (out, ran, len, at) =
      copy_out_circle r (front r) whole (front-lt r valid) dst n refl (omega arith) room in
    ran ∙ ap done (copied r dst out n valid few room len at)

-- `peek` copies the oldest bytes, as many as asked for and present, and says how many they are;
-- the rest of the destination keeps its bytes.
pub peek_lem :
    (r : Ring) (dst : Bytes) (len : ℕ)
    → IsRing r
    → len ≤ length dst
    → let n = min len (length (contents r)) in
      peek r (some dst) len ≡ done (n, some (take n (contents r) ++ drop n dst))
unfolding peek
peek_lem r dst len valid room =
    let same = length-contents r in
    let n = min len (used r) in
    elim (Bool-cases (n == 0)) [
      | inl none_asked ↦ let zero_n : n ≡ 0 = ground arith in rw (same, zero_n) refl
      | inr some_asked ↦
          rw (same, some_asked, copy_out_lem r dst n valid (omega arith) (omega arith)) refl
    ]

-- The state after `n` of its bytes are given up.
abbrev advanced : Ring → ℕ → Ring
advanced r n = record r { head = (r.head + n) % 2 ^ 64 }

module _ (r : Ring) (n : ℕ) (valid : IsRing r) (few : n ≤ used r) where
  used-advanced : used (advanced r n) ≡ used r - n
  used-advanced = let (_, _, _, _, _, head, tail, _) = valid in omega arith

  advanced-IsRing : IsRing (advanced r n)
  advanced-IsRing =
      let (e, small, cap, mask, whole, head, tail, full) = valid in
      (e, small, cap, mask, whole, omega arith, tail, omega (arith, used-advanced))

  contents-advanced : contents (advanced r n) ≡ drop n (contents r)
  contents-advanced =
      let (e, small, cap, mask, whole, head, tail, full) = valid in
      let l = length-contents r in
      eq_of_get_or (contents (advanced r n)) (drop n (contents r)) 0
        (omega
          (arith, l, length-contents (advanced r n), used-advanced, length-drop n (contents r)))
        λ i lt.
          let inside : n + i < used r =
            omega (arith, length-contents (advanced r n), used-advanced) in
          let moved : front (advanced r n) ≡ slot r.capacity (front r) n =
            wrapped_slot r valid n (omega arith) in
          let there : slot r.capacity (slot r.capacity (front r) n) i
              ≡ slot r.capacity (front r) (n + i) =
            ground (arith, front-lt r valid) in
          get_or-contents (advanced r n) advanced-IsRing i (omega (arith, used-advanced))
          ∙ ap (λ f. get_or r.buf (slot r.capacity f i) 0) moved
          ∙ ap (λ k. get_or r.buf k 0) there
          ∙ sym (get_or-contents r valid (n + i) inside)
          ∙ sym (get_or-drop n (contents r) i 0)

-- `consume` copies as `peek` does, and the bytes that it copied are no longer in the ring, which
-- stays valid.
pub consume_lem :
    (r : Ring) (dst : Bytes) (len : ℕ)
    → IsRing r
    → len ≤ length dst
    → let n = min len (length (contents r)) in
      (r' : Ring) × (consume r (some dst) len
        ≡ done (n, some (take n (contents r) ++ drop n dst), r'))
      × (contents r' ≡ drop n (contents r))
      × (r'.capacity ≡ r.capacity)
      × IsRing r'
unfolding consume
consume_lem r dst len valid room =
    let same = length-contents r in
    let n = min len (used r) in
    elim (Bool-cases (n == 0)) [
      | inl none_asked ↦
          let zero_n : n ≡ 0 = ground arith in rw (same, zero_n) (r, refl, refl, refl, valid)
      | inr some_asked ↦
          rw (same, some_asked, copy_out_lem r dst n valid (omega arith) (omega arith))
            (
              advanced r n,
              refl,
              contents-advanced r n valid (omega arith),
              refl,
              advanced-IsRing r n valid (omega arith),
            )
    ]

drop-min : (n : ℕ) (xs : Bytes) → drop (min n (length xs)) xs ≡ drop n xs
drop-min zero [] = refl
drop-min zero (x ∷ xs) =
    rw (let none_left : min zero (suc (length xs)) ≡ 0 = omega arith in none_left) refl
drop-min (suc n) [] = rw (let none_left : min (suc n) 0 ≡ 0 = omega arith in none_left) refl
drop-min (suc n) (x ∷ xs) =
    let step : min (suc n) (suc (length xs)) ≡ suc (min n (length xs)) = omega arith in
    rw step (drop-min n xs)

-- Dropping gives up the oldest bytes, as many as asked for and present.
pub discard_lem :
    (r : Ring) (len : ℕ)
    → IsRing r
    → (contents (discard r len) ≡ drop len (contents r))
      × ((discard r len).capacity ≡ r.capacity)
      × IsRing (discard r len)
unfolding discard
discard_lem r len valid =
    let n = min len (used r) in
    let all : drop n (contents r) ≡ drop len (contents r) =
      rw (sym (length-contents r)) (drop-min len (contents r)) in
    elim (Bool-cases (len == 0)) [
      | inl none_asked ↦ let zero_len : len ≡ 0 = ground arith in rw zero_len (refl, refl, valid)
      | inr some_asked ↦ rw some_asked (
        contents-advanced r n valid (omega arith) ∙ all,
        refl,
        advanced-IsRing r n valid (omega arith),
      )
    ]
