-- ===== src/Pe/Layout/ExportDirectory.antt =====
-- `cellar_pe_export_directory_t` of include/cellar/pe.h: its size, and the fields that the loader reads.
use fantastic_octo_meme.Prelude.{ℕ}
use fantastic_octo_meme.Memory.{Bytes}
use fantastic_octo_meme.Pe.Layout.Fields.{field32}

abbrev pub size : ℕ
size = 40

abbrev pub number_of_names : Bytes → ℕ
number_of_names s = field32 s 24

abbrev pub address_of_names : Bytes → ℕ
address_of_names s = field32 s 32
