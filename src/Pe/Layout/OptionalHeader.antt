-- ===== src/Pe/Layout/OptionalHeader.antt =====
-- `cellar_pe_optional_header_t` of include/cellar/pe.h: its size, and the fields that the loader reads.
use fantastic_octo_meme.Prelude.{ℕ, ◌+◌, ◌*◌}
use fantastic_octo_meme.Memory.{Bytes}
use fantastic_octo_meme.Pe.Layout.Fields.{field16, field32}

abbrev pub size : ℕ
size = 244

abbrev pub magic : Bytes → ℕ
magic s = field16 s 0

abbrev pub address_of_entry_point : Bytes → ℕ
address_of_entry_point s = field32 s 16

abbrev pub size_of_image : Bytes → ℕ
size_of_image s = field32 s 60

abbrev pub size_of_headers : Bytes → ℕ
size_of_headers s = field32 s 64

abbrev pub subsystem : Bytes → ℕ
subsystem s = field16 s 72

-- `data_directory[i].virtual_address` and `data_directory[i].size`.
abbrev pub directory_address : Bytes → ℕ → ℕ
directory_address s i = field32 s (116 + 8 * i)

abbrev pub directory_size : Bytes → ℕ → ℕ
directory_size s i = field32 s (120 + 8 * i)
