-- ===== src/Loader/Relocs.antt =====
-- `parse_relocs` of src/loader/loader.c. `rva` and `end` are 32-bit; the loop test adds in 64 bits,
-- the sums with a size in 32. The loop runs on fuel.
pub mod Ends
pub mod Hangs
use fantastic_octo_meme.Prelude.{
  ℕ, zero, suc, ◌+◌, ◌%◌, ◌^◌, Bool, true, ◌||◌, ltb, ◌==◌, some, none, if◌then◌else◌,
}
use fantastic_octo_meme.Memory.{Outcome, done, fail, pending, ◌>>=◌, ◌>>◌}
use fantastic_octo_meme.Pe.Image.{Image}
use fantastic_octo_meme.Pe.Layout.{dir_basereloc}
use fantastic_octo_meme.Pe.Layout.BaseReloc
use fantastic_octo_meme.Pe.Layout.OptionalHeader
use fantastic_octo_meme.Pe.Rva.{image_read}
use fantastic_octo_meme.Status.{err_pe_bad_relocations}

abbrev pub add32 : ℕ → ℕ → ℕ
add32 a b = (a + b) % 2 ^ 32

-- The loop from `rva` on.
unfoldable pub reloc_loop : ℕ → Image → ℕ → ℕ → Outcome (Unit {0})
reloc_loop zero img rva end = pending
reloc_loop (suc fuel) img rva end =
    if ltb end (rva + BaseReloc.size)
    then done tt
    else (image_read img rva BaseReloc.size >>= λ r. elim r [
      | none ↦ done tt
      | some block ↦
          let size = BaseReloc.size_of_block block in
          let next = reloc_loop fuel img (add32 rva size) end in
          if ltb size BaseReloc.size
          then fail err_pe_bad_relocations
          else if ltb end (add32 rva size)
          then fail err_pe_bad_relocations
          else next
    ])

unfoldable pub parse_relocs : ℕ → Image → Outcome Image
parse_relocs fuel img =
    let address = OptionalHeader.directory_address img.opt dir_basereloc in
    let size = OptionalHeader.directory_size img.opt dir_basereloc in
    if address == 0 || size == 0 then done img else do
      reloc_loop fuel img address (add32 address size)
      done (record img { relocs_parsed = true })
