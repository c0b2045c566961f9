-- ===== src/Pe/Layout/CoffHeader.antt =====
-- `cellar_pe_coff_header_t` of include/cellar/pe.h: its size, and the fields that the loader reads.
use fantastic_octo_meme.Prelude.{ℕ}
use fantastic_octo_meme.Memory.{Bytes}
use fantastic_octo_meme.Pe.Layout.Fields.{field16}

abbrev pub size : ℕ
size = 20

abbrev pub machine : Bytes → ℕ
machine s = field16 s 0

abbrev pub number_of_sections : Bytes → ℕ
number_of_sections s = field16 s 2

abbrev pub size_of_optional_header : Bytes → ℕ
size_of_optional_header s = field16 s 16

abbrev pub characteristics : Bytes → ℕ
characteristics s = field16 s 18
