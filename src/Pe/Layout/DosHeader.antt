-- ===== src/Pe/Layout/DosHeader.antt =====
-- `cellar_pe_dos_header_t` of include/cellar/pe.h: its size, and the fields that the loader reads.
use fantastic_octo_meme.Prelude.{ℕ}
use fantastic_octo_meme.Memory.{Bytes}
use fantastic_octo_meme.Pe.Layout.Fields.{field16, field32}

abbrev pub size : ℕ
size = 64

abbrev pub e_magic : Bytes → ℕ
e_magic s = field16 s 0

abbrev pub e_lfanew : Bytes → ℕ
e_lfanew s = field32 s 60
