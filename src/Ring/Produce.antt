-- ===== src/Ring/Produce.antt =====
-- The producer's side of a ring, and its creation.
use fantastic_octo_meme.Prelude.{
  ℕ, ◌+◌, ◌-◌, ◌%◌, ◌^◌, ◌≤◌, ◌<◌, ◌≡◌, refl, sym, ap, ◌∙◌, arith, ◌++◌, length, get_or, ltb, ◌==◌,
  min, if◌then◌else◌, Bool-cases, inl, inr, take, length-take, length-append, eq_of_get_or,
  append_nil, true, false, get_or-take, get_or-append_left, get_or-append_right, some,
}
use fantastic_octo_meme.Memory.{Bytes, done}
use fantastic_octo_meme.Ring.{Ring, used, free_space, produce}
use fantastic_octo_meme.Ring.Queue.{
  IsRing, contents, length-contents, front, front-lt, tail_slot, get_or-contents, capacity-le,
}
use fantastic_octo_meme.Ring.Valid.{slot, copy_in_circle}

-- A slot seen from the tail.
slot_old : (c h u i : ℕ) → h < c → u ≤ c → i < u → slot c h i ≡ slot c (slot c h u) (c - u + i)
slot_old c h u i a b d = ground arith

slot_new : (c h u i : ℕ) → h < c → u ≤ i → i < c → slot c h i ≡ slot c (slot c h u) (i - u)
slot_new c h u i a b d = ground arith

-- The state after `n` bytes are stored in the buffer `out`.
abbrev filled : Ring → Bytes → ℕ → Ring
filled r out n = record r { buf = out; tail = (r.tail + n) % 2 ^ 64 }

module _ (r : Ring) (src out : Bytes) (n : ℕ) (valid : IsRing r) (few : used r + n ≤ r.capacity)
    (room : n ≤ length src) (len : length out ≡ length r.buf) where
  used-filled : used (filled r out n) ≡ used r + n
  used-filled = let (_, _, _, _, _, head, tail, _) = valid in omega (arith, capacity-le r valid)

  filled-IsRing : IsRing (filled r out n)
  filled-IsRing =
      let (e, small, cap, mask, whole, head, tail, full) = valid in
      (e, small, cap, mask, len ∙ whole, head, omega arith, omega (arith, used-filled))

  contents-filled :
      ((i : ℕ)
        → i < r.capacity
        → get_or out (slot r.capacity (slot r.capacity (front r) (used r)) i) 0 ≡ (
            if ltb i n
            then get_or src i 0
            else get_or r.buf (slot r.capacity (slot r.capacity (front r) (used r)) i) 0))
      → contents (filled r out n) ≡ contents r ++ take n src
  contents-filled at =
      let (e, small, cap, mask, whole, head, tail, full) = valid in
      let l = length-contents r in
      let u = used r in
      let c = r.capacity in
      eq_of_get_or (contents (filled r out n)) (contents r ++ take n src) 0
        (omega (
          arith,
          l,
          length-contents (filled r out n),
          used-filled,
          length-append (contents r) (take n src),
          length-take n src,
        ))
        λ i lt.
          let inside : i < u + n = omega (arith, length-contents (filled r out n), used-filled) in
          get_or-contents (filled r out n) filled-IsRing i (omega (arith, used-filled))
          ∙ elim (Bool-cases (ltb i u)) [
            | inl old ↦
                let before : i < u = ground arith in
                let j = c - u + i in
                let same = slot_old c (front r) u i (front-lt r valid) full before in
                let kept : ltb j n ≡ false = ground arith in
                ap (λ k. get_or out k 0) same
                ∙ rw kept at (at j (omega arith))
                ∙ ap (λ k. get_or r.buf k 0) (sym same)
                ∙ sym (get_or-contents r valid i before)
                ∙ sym (get_or-append_left (contents r) (take n src) i 0 (omega (arith, l)))
            | inr new ↦
                let behind : u ≤ i = ground arith in
                let j = i - u in
                let same = slot_new c (front r) u i (front-lt r valid) behind (omega arith) in
                let fresh : ltb j n ≡ true = ground arith in
                ap (λ k. get_or out k 0) same
                ∙ rw fresh at (at j (omega arith))
                ∙ sym (get_or-take n src j 0 (omega arith))
                ∙ ap (λ k. get_or (take n src) (i - k) 0) (sym l)
                ∙ sym (get_or-append_right (contents r) (take n src) i 0 (omega (arith, l)))
          ]

-- `produce` appends the first bytes of the source, as many as are given and fit the free space,
-- and says how many they are; the ring stays valid.
pub produce_lem :
    (r : Ring) (src : Bytes) (len : ℕ)
    → IsRing r
    → len ≤ length src
    → let n = min len (r.capacity - length (contents r)) in
      (r' : Ring) × (produce r (some src) len ≡ done (n, r'))
      × (contents r' ≡ contents r ++ take n src)
      × (r'.capacity ≡ r.capacity)
      × IsRing r'
unfolding produce
produce_lem r src len valid room =
    let (e, small, cap, mask, whole, head, tail, full) = valid in
    let same = length-contents r in
    let n = min len (r.capacity - used r) in
    let room_left : free_space r ≡ r.capacity - used r = omega (arith, capacity-le r valid) in
    elim (Bool-cases (n == 0)) [
      | inl none_asked ↦
          let zero_n : n ≡ 0 = ground arith in
          rw (same, room_left, zero_n) (r, refl, sym (append_nil (contents r)), refl, valid)
      | inr some_asked ↦
          let (out, ran, l, at) =
            copy_in_circle r (slot r.capacity (front r) (used r)) whole
              (ground (arith, front-lt r valid)) src n (tail_slot r valid) (omega arith)
              (omega arith) in
          rw (same, room_left, some_asked, ran)
            (
              filled r out n,
              refl,
              contents-filled r src out n valid (omega arith) (omega arith) l at,
              refl,
              filled-IsRing r src out n valid (omega arith) (omega arith) l,
            )
    ]
