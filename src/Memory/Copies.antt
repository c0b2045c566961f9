-- ===== src/Memory/Copies.antt =====
-- Copies that stay inside their objects, offset by offset.
use fantastic_octo_meme.Prelude.{
  ℕ, ◌+◌, ◌-◌, ◌≤◌, ◌<◌, ◌≡◌, ◌∙◌, arith, length, get_or, take, drop, ltb, if◌then◌else◌,
  length-take, length-drop, get_or-take, get_or-drop, ◌++◌,
}
use fantastic_octo_meme.Memory.{Bytes, done, slice, splice}
use fantastic_octo_meme.Memory.Laws.{slice-eq-done, splice-eq-done, splice-length, get_or-splice}

pub slice_inside :
    (b : Bytes) (off len : ℕ)
    → off + len ≤ length b
    → {C : Type 0}
    → ((p : Bytes)
        → slice b off len ≡ done p
        → length p ≡ len
        → ((i : ℕ) → i < len → get_or p i 0 ≡ get_or b (off + i) 0)
        → C)
    → C
slice_inside b off len h k =
    k (take len (drop off b)) (slice-eq-done b off len h)
      (omega (arith, length-take len (drop off b), length-drop off b))
      (λ i lt. get_or-take len (drop off b) i 0 lt ∙ get_or-drop off b i 0)

pub splice_inside :
    (b : Bytes) (off : ℕ) (new : Bytes)
    → off + length new ≤ length b
    → {C : Type 0}
    → ((r : Bytes)
        → splice b off new ≡ done r
        → length r ≡ length b
        → ((i : ℕ)
            → get_or r i 0 ≡ (
                if ltb i off
                then get_or b i 0
                else if ltb i (off + length new)
                then get_or new (i - off) 0
                else get_or b i 0))
        → C)
    → C
splice_inside b off new h k =
    let r = take off b ++ (new ++ drop (off + length new) b) in
    let e = splice-eq-done b off new h in
    k r e (splice-length b off new r e) (λ i. get_or-splice b off new r i e)
