-- ===== src/Pe/Layout/SectionHeader.antt =====
-- `cellar_pe_section_t` of include/cellar/pe.h: its size, and the fields that the loader reads.
use fantastic_octo_meme.Prelude.{ℕ, take}
use fantastic_octo_meme.Memory.{Bytes}
use fantastic_octo_meme.Pe.Layout.Fields.{field32}

abbrev pub size : ℕ
size = 40

abbrev pub virtual_size : Bytes → ℕ
virtual_size s = field32 s 8

abbrev pub virtual_address : Bytes → ℕ
virtual_address s = field32 s 12

abbrev pub size_of_raw_data : Bytes → ℕ
size_of_raw_data s = field32 s 16

abbrev pub pointer_to_raw_data : Bytes → ℕ
pointer_to_raw_data s = field32 s 20

abbrev pub characteristics : Bytes → ℕ
characteristics s = field32 s 36

abbrev pub name : Bytes → Bytes
name s = take 8 s
