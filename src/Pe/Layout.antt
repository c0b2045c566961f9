-- ===== src/Pe/Layout.antt =====
-- The structures of include/cellar/pe.h, one module each, and its constants.
pub mod Fields
pub mod DosHeader
pub mod CoffHeader
pub mod OptionalHeader
pub mod SectionHeader
pub mod ImportDescriptor
pub mod ExportDirectory
pub mod BaseReloc
use fantastic_octo_meme.Prelude.{ℕ}

abbrev pub dos_signature : ℕ
dos_signature = 0x5A4D

abbrev pub nt_signature : ℕ
nt_signature = 0x4550

abbrev pub magic_pe32 : ℕ
magic_pe32 = 0x10b

abbrev pub magic_pe32_plus : ℕ
magic_pe32_plus = 0x20b

abbrev pub f_dll : ℕ
f_dll = 0x2000

abbrev pub dir_export : ℕ
dir_export = 0

abbrev pub dir_import : ℕ
dir_import = 1

abbrev pub dir_basereloc : ℕ
dir_basereloc = 5
