-- ===== src/Loader/Relocs/Hangs.antt =====
-- A relocation table on which the loop never ends.
use fantastic_octo_meme.Prelude.{
  ℕ, zero, suc, ◌+◌, ◌-◌, ◌^◌, ◌≤◌, ◌<◌, ◌≡◌, false, ◌==◌, refl, arith, some, ◌∙◌, ◌||◌,
}
use fantastic_octo_meme.Memory.{Bytes, done, pending}
use fantastic_octo_meme.Loader.Relocs.{add32, reloc_loop, parse_relocs}
use fantastic_octo_meme.Pe.Image.{Image}
use fantastic_octo_meme.Pe.Layout.{dir_basereloc}
use fantastic_octo_meme.Pe.Layout.BaseReloc
use fantastic_octo_meme.Pe.Layout.OptionalHeader
use fantastic_octo_meme.Pe.Rva.{image_read}

-- Two neighbouring blocks: the second one's size wraps back to the first.
module _ (img : Image) (rva end : ℕ) (first second : Bytes) (low : rva + 16 ≤ end)
    (high : end < 2 ^ 32) (at_first : image_read img rva BaseReloc.size ≡ done (some first))
    (at_second : image_read img (rva + 8) BaseReloc.size ≡ done (some second))
    (step : BaseReloc.size_of_block first ≡ 8)
    (back : BaseReloc.size_of_block second ≡ 2 ^ 32 - 8) where
  forward : (fuel : ℕ) → reloc_loop (suc fuel) img rva end ≡ reloc_loop fuel img (rva + 8) end
  unfolding reloc_loop
  forward fuel =
      let next : add32 rva 8 ≡ rva + 8 = omega arith in rw (at_first, step, next) (ground arith)

  backward : (fuel : ℕ) → reloc_loop (suc fuel) img (rva + 8) end ≡ reloc_loop fuel img rva end
  unfolding reloc_loop
  backward fuel =
      let next : add32 (rva + 8) (2 ^ 32 - 8) ≡ rva = omega arith in
      rw (at_second, back, next) (ground arith)

  never :
      (fuel : ℕ)
      → (reloc_loop fuel img rva end ≡ pending) × (reloc_loop fuel img (rva + 8) end ≡ pending)
  unfolding reloc_loop
  never zero = (refl, refl)
  never (suc fuel) = (forward fuel ∙ (never fuel).1, backward fuel ∙ (never fuel).0)

-- Where the directory begins with a block of 8 bytes and a block whose size is 2^32 - 8, the loop
-- goes back and forth between the two for ever: no number of rounds is enough.
pub parse_relocs_hangs :
    (img : Image) (first second : Bytes) (fuel : ℕ)
    → let rva = OptionalHeader.directory_address img.opt dir_basereloc in
      let size = OptionalHeader.directory_size img.opt dir_basereloc in
      0 < rva
      → 16 ≤ size
      → rva + size < 2 ^ 32
      → image_read img rva BaseReloc.size ≡ done (some first)
      → image_read img (rva + 8) BaseReloc.size ≡ done (some second)
      → BaseReloc.size_of_block first ≡ 8
      → BaseReloc.size_of_block second ≡ 2 ^ 32 - 8
      → parse_relocs fuel img ≡ pending
unfolding parse_relocs
parse_relocs_hangs img first second fuel pos big whole at_first at_second step back =
    let rva = OptionalHeader.directory_address img.opt dir_basereloc in
    let size = OptionalHeader.directory_size img.opt dir_basereloc in
    let test : (rva == 0 || size == 0) ≡ false = ground arith in
    let stuck =
      (never img rva (add32 rva size) first second (omega arith) (omega arith) at_first at_second
        step back fuel).0 in
    rw (test, stuck)
