-- ===== src/Pe/Layout/ImportDescriptor.antt =====
-- `cellar_pe_import_descriptor_t` of include/cellar/pe.h: its size, and the fields that the loader reads.
use fantastic_octo_meme.Prelude.{ℕ}
use fantastic_octo_meme.Memory.{Bytes}
use fantastic_octo_meme.Pe.Layout.Fields.{field32}

abbrev pub size : ℕ
size = 20

abbrev pub characteristics : Bytes → ℕ
characteristics s = field32 s 0

abbrev pub name_rva : Bytes → ℕ
name_rva s = field32 s 12

abbrev pub first_thunk : Bytes → ℕ
first_thunk s = field32 s 16
