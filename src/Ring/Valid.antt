-- ===== src/Ring/Valid.antt =====
-- The invariant of a ring, the bytes that it holds, and its two copies.
use Prim.Native.Nat.{bit_and}
use fantastic_octo_meme.Prelude.{
  ℕ, ◌+◌, ◌-◌, ◌≤◌, ◌<◌, ◌≡◌, ap, ◌∙◌, arith, length, get_or, ltb, min, if◌then◌else◌, Bool-cases,
  inl, inr,
}
use fantastic_octo_meme.Memory.{Bytes, done}
use fantastic_octo_meme.Memory.Copies.{slice_inside, splice_inside}
use fantastic_octo_meme.Ring.{Ring, copy_in, copy_out}

-- The slot `i` places behind `h` in a circle of `c`.
abbrev pub slot : ℕ → ℕ → ℕ → ℕ
slot c h i = if ltb (h + i) c then h + i else h + i - c

module _ (r : Ring) (h : ℕ) (whole : length r.buf ≡ r.capacity) (low : h < r.capacity) where
  -- What is copied out is the circle from `h` on.
  pub copy_out_circle :
      (dst : Bytes) (len : ℕ)
      → bit_and r.head r.mask ≡ h
      → len ≤ r.capacity
      → len ≤ length dst
      → (out : Bytes) × (copy_out r dst len ≡ done out)
        × (length out ≡ length dst)
        × ((i : ℕ)
            → get_or out i 0
              ≡ (if ltb i len then get_or r.buf (slot r.capacity h i) 0 else get_or dst i 0))
  unfolding copy_out
  copy_out_circle dst len at fits room =
      let first = min (r.capacity - h) len in
      slice_inside r.buf h first (omega arith) λ p e_p l_p g_p.
        splice_inside dst 0 p (omega arith) λ d1 e_1 l_1 g_1. elim (Bool-cases (ltb first len)) [
          | inl more ↦ slice_inside r.buf 0 (len - first) (omega arith) λ q e_q l_q g_q.
              splice_inside d1 first q (ground arith) λ d2 e_2 l_2 g_2. (
                d2,
                rw (at, e_p, e_1, more, e_q, e_2),
                l_2 ∙ l_1,
                λ i.
                    let around : first ≤ i
                        → get_or r.buf (0 + (i - first)) 0 ≡ get_or r.buf (h + i - r.capacity) 0 =
                      λ le. ap (λ k. get_or r.buf k 0) (ground arith) in
                    ground (arith, g_2 i, g_1 i, g_p i, g_q (i - first), around),
              )
          | inr all ↦ (d1, rw (at, e_p, e_1, all), l_1, λ i. ground (arith, g_1 i, g_p i))
        ]

  -- What is copied in stands in the circle from `h` on, and the rest of the circle is as before.
  pub copy_in_circle :
      (src : Bytes) (len : ℕ)
      → bit_and r.tail r.mask ≡ h
      → len ≤ r.capacity
      → len ≤ length src
      → (out : Bytes) × (copy_in r src len ≡ done out)
        × (length out ≡ length r.buf)
        × ((i : ℕ)
            → i < r.capacity
            → get_or out (slot r.capacity h i) 0
              ≡ (if ltb i len then get_or src i 0 else get_or r.buf (slot r.capacity h i) 0))
  unfolding copy_in
  copy_in_circle src len at fits room =
      let first = min (r.capacity - h) len in
      slice_inside src 0 first (omega arith) λ p e_p l_p g_p.
        splice_inside r.buf h p (omega arith) λ b1 e_1 l_1 g_1. elim (Bool-cases (ltb first len)) [
          | inl more ↦ slice_inside src first (len - first) (ground arith) λ q e_q l_q g_q.
              splice_inside b1 0 q (ground arith) λ b2 e_2 l_2 g_2. (
                b2,
                rw (at, e_p, e_1, more, e_q, e_2),
                l_2 ∙ l_1,
                λ i lt.
                    let straight : get_or src (0 + (h + i - h)) 0 ≡ get_or src i 0 =
                      ap (λ k. get_or src k 0) (omega arith) in
                    let around : r.capacity ≤ h + i
                        → get_or src (first + (h + i - r.capacity)) 0 ≡ get_or src i 0 =
                      λ le. ap (λ k. get_or src k 0) (ground arith) in
                    let s = slot r.capacity h i in
                    ground (arith, g_2 s, g_1 s, g_p (s - h), g_q (s - 0), straight, around),
              )
          | inr all ↦ (
            b1,
            rw (at, e_p, e_1, all),
            l_1,
            λ i lt.
                let straight : get_or src (0 + (h + i - h)) 0 ≡ get_or src i 0 =
                  ap (λ k. get_or src k 0) (omega arith) in
                let s = slot r.capacity h i in ground (arith, g_1 s, g_p (s - h), straight),
          )
        ]
