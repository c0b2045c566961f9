-- ===== src/Pe/Layout/BaseReloc.antt =====
-- `cellar_pe_base_reloc_t` of include/cellar/pe.h: its size, and the fields that the loader reads.
use fantastic_octo_meme.Prelude.{ℕ}
use fantastic_octo_meme.Memory.{Bytes}
use fantastic_octo_meme.Pe.Layout.Fields.{field32}

abbrev pub size : ℕ
size = 8

abbrev pub virtual_address : Bytes → ℕ
virtual_address s = field32 s 0

abbrev pub size_of_block : Bytes → ℕ
size_of_block s = field32 s 4
