-- ===== src/Ring/Queue.antt =====
-- A ring as the queue of the bytes between its two counters.
use Prim.Native.Nat.{bit_and}
use native.Mathlib.Nat.{pow-le-pow_right}
use fantastic_octo_meme.Prelude.{
  ℕ, ◌+◌, ◌-◌, ◌%◌, ◌^◌, ◌≤◌, ◌<◌, ◌≡◌, sym, ap, ◌∙◌, arith, length, get_or,
}
use fantastic_octo_meme.Prelude.Bits.{bit_and_mask, pow-pos}
use fantastic_octo_meme.Memory.{Bytes}
use fantastic_octo_meme.Ring.{Ring, used}
use fantastic_octo_meme.Ring.Slots.{wrap-slot, next-slot, cells, length-cells, get_or-cells}
use fantastic_octo_meme.Ring.Valid.{slot}

-- The state that `create` makes and every operation keeps, with the exponent of the capacity.
abbrev pub IsRing : Ring → Type 0
IsRing r =
    (e : ℕ) × (e ≤ 32)
    × (r.capacity ≡ 2 ^ e)
    × (r.mask ≡ 2 ^ e - 1)
    × (length r.buf ≡ r.capacity)
    × (r.head < 2 ^ 64)
    × (r.tail < 2 ^ 64)
    × (used r ≤ r.capacity)

-- The bytes stored, the oldest first.
unfoldable pub contents : Ring → Bytes
contents r = cells (λ i. get_or r.buf (bit_and (r.head + i) r.mask) 0) 0 (used r)

pub length-contents : (r : Ring) → length (contents r) ≡ used r
unfolding contents
length-contents r = length-cells _ 0 (used r)

-- The slot of the oldest byte.
abbrev pub front : Ring → ℕ
front r = bit_and r.head r.mask

module _ (r : Ring) (valid : IsRing r) where
  pub capacity-pos : 0 < r.capacity
  capacity-pos = let (e, _, cap, _, _, _, _, _) = valid in rw cap (pow-pos e)

  pub capacity-le : r.capacity ≤ 2 ^ 32
  capacity-le =
      let (e, small, cap, _, _, _, _, _) = valid in rw cap (pow-le-pow_right (omega arith) small)

  -- A masked counter of 64 bits is the unbounded one, modulo the capacity.
  masked : (x : ℕ) → bit_and (x % 2 ^ 64) r.mask ≡ x % r.capacity
  masked x =
      let (e, small, cap, mask, _, _, _, _) = valid in
      rw (cap, mask) (bit_and_mask e (x % 2 ^ 64) ∙ wrap-slot e x (omega arith))

  masked_all : (x : ℕ) → bit_and x r.mask ≡ x % r.capacity
  masked_all x = let (e, _, cap, mask, _, _, _, _) = valid in rw (cap, mask) (bit_and_mask e x)

  pub front-lt : front r < r.capacity
  front-lt = rw (masked_all r.head) (omega (arith, capacity-pos))

  pub head_slot :
      (i : ℕ) → i ≤ r.capacity → bit_and (r.head + i) r.mask ≡ slot r.capacity (front r) i
  head_slot i h =
      rw (masked_all (r.head + i), masked_all r.head) (next-slot r.capacity r.head i capacity-pos h)

  pub wrapped_slot :
      (i : ℕ)
      → i ≤ r.capacity
      → bit_and ((r.head + i) % 2 ^ 64) r.mask ≡ slot r.capacity (front r) i
  wrapped_slot i h = masked (r.head + i) ∙ sym (masked_all (r.head + i)) ∙ head_slot i h

  -- The slot behind the newest byte.
  pub tail_slot : bit_and r.tail r.mask ≡ slot r.capacity (front r) (used r)
  tail_slot =
      let (_, _, _, _, _, head, tail, full) = valid in
      let behind : r.tail ≡ (r.head + used r) % 2 ^ 64 = omega arith in
      ap (λ t. bit_and t r.mask) behind ∙ wrapped_slot (used r) full

  pub get_or-contents :
      (i : ℕ) → i < used r → get_or (contents r) i 0 ≡ get_or r.buf (slot r.capacity (front r) i) 0
  unfolding contents
  get_or-contents i lt =
      let (_, _, _, _, _, _, _, full) = valid in
      get_or-cells _ 0 (used r) i lt
      ∙ ap (λ k. get_or r.buf k 0)
          (ap (λ k. bit_and k r.mask) (omega arith) ∙ head_slot i (omega arith))
