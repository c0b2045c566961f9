-- ===== src/Loader/Relocs/Ends.antt =====
-- The relocation loop ends where no block wraps around the address space.
use fantastic_octo_meme.Prelude.{
  ℕ, zero, suc, ◌+◌, ◌*◌, ◌^◌, ◌≤◌, ◌<◌, ◌≡◌, length, ◌==◌, arith, some, inl, inr, ◌||◌, Bool-cases,
  take, drop,
}
use fantastic_octo_meme.Memory.{Bytes, IsSafe}
use fantastic_octo_meme.Memory.Laws.{>>=-IsSafe}
use fantastic_octo_meme.Loader.Relocs.{add32, reloc_loop, parse_relocs}
use fantastic_octo_meme.Pe.Image.{Image}
use fantastic_octo_meme.Pe.Layout.{dir_basereloc}
use fantastic_octo_meme.Pe.Layout.BaseReloc
use fantastic_octo_meme.Pe.Layout.OptionalHeader
use fantastic_octo_meme.Pe.Rva.Reads.{image_read_lem}

module _ (img : Image) (m : Bytes) (is_m : img.mapped ≡ some m) (whole : length m ≡ img.mapped_size)
    (fits : (rva : ℕ)
      → rva + BaseReloc.size ≤ length m
      → rva + BaseReloc.size_of_block (take BaseReloc.size (drop rva m)) < 2 ^ 32) where
  reloc_loop-IsSafe :
      (k rva end : ℕ) → end < rva + k * BaseReloc.size → IsSafe (reloc_loop (suc k) img rva end)
  unfolding reloc_loop
  reloc_loop-IsSafe zero rva end enough = ground arith
  reloc_loop-IsSafe (suc k) rva end enough =
      elim (image_read_lem img m rva BaseReloc.size is_m whole) [
        | inl stop ↦ rw stop (ground arith)
        | inr (inside, block) ↦
            let bytes = take BaseReloc.size (drop rva m) in
            let no_wrap = fits rva (omega arith) in
            let size = BaseReloc.size_of_block bytes in
            rw block (ground (arith, reloc_loop-IsSafe k (add32 rva size) end))
      ]

-- In a whole image where no eight bytes, read as a block, have a size that, added to their address, exceeds 32 bits, the walk over
-- the relocation blocks ends, with success or with a status, within a number of rounds that the
-- directory bounds, and it reads nothing outside the image.
pub parse_relocs-IsSafe :
    (img : Image) (m : Bytes) (k : ℕ)
    → img.mapped ≡ some m
    → length m ≡ img.mapped_size
    → ((rva : ℕ)
        → rva + BaseReloc.size ≤ length m
        → rva + BaseReloc.size_of_block (take BaseReloc.size (drop rva m)) < 2 ^ 32)
    → OptionalHeader.directory_size img.opt dir_basereloc < k * BaseReloc.size
    → IsSafe (parse_relocs (suc k) img)
unfolding parse_relocs
parse_relocs-IsSafe img m k is_m whole fits enough =
    let address = OptionalHeader.directory_address img.opt dir_basereloc in
    let size = OptionalHeader.directory_size img.opt dir_basereloc in
    let loop =
      reloc_loop-IsSafe img m is_m whole fits k address (add32 address size) (omega arith) in
    elim (Bool-cases (address == 0 || size == 0)) [
      | inl empty ↦ rw empty tt
      | inr present ↦ rw present (>>=-IsSafe _ _ loop (λ _ _. tt))
    ]
