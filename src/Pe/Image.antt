-- ===== src/Pe/Image.antt =====
-- The parsed image of include/cellar/loader.h.
use fantastic_octo_meme.Prelude.{ℕ, Bool, false, List, [], Option, none}
use fantastic_octo_meme.Memory.{Bytes, zeros}
use fantastic_octo_meme.Pe.Layout.DosHeader
use fantastic_octo_meme.Pe.Layout.CoffHeader
use fantastic_octo_meme.Pe.Layout.OptionalHeader

-- `cellar_section_view_t`; `mapped` is an offset into the mapped image.
pub record SectionView : Type 0 where
  pub name : Bytes
  pub virtual_address : ℕ
  pub virtual_size : ℕ
  pub raw_offset : ℕ
  pub raw_size : ℕ
  pub characteristics : ℕ
  pub mapped : Option ℕ

-- `cellar_import_t`; `module_name` and `name` are offsets into the mapped image, and `resolved` is
-- the address of a stub,
-- or 0.
pub record Import : Type 0 where
  pub module_name : ℕ
  pub name : Option ℕ
  pub ordinal : ℕ
  pub resolved : ℕ

-- `cellar_image_t`; a null pointer is `none`.
pub record Image : Type 0 where
  pub raw : Option Bytes
  pub raw_size : ℕ
  pub dos : Bytes
  pub coff : Bytes
  pub opt : Bytes
  pub sections : List SectionView
  pub section_count : ℕ
  pub mapped : Option Bytes
  pub mapped_size : ℕ
  pub imports : List Import
  pub import_count : ℕ
  pub export_names : Option (List (Option Bytes))
  pub export_name_count : ℕ
  pub is_dll : Bool
  pub sections_mapped : Bool
  pub imports_parsed : Bool
  pub exports_parsed : Bool
  pub relocs_parsed : Bool

-- `memset(img, 0, sizeof *img)`.
abbrev pub zeroed : Image
zeroed = record {
  raw = none;
  raw_size = 0;
  dos = zeros DosHeader.size;
  coff = zeros CoffHeader.size;
  opt = zeros OptionalHeader.size;
  sections = [];
  section_count = 0;
  mapped = none;
  mapped_size = 0;
  imports = [];
  import_count = 0;
  export_names = none;
  export_name_count = 0;
  is_dll = false;
  sections_mapped = false;
  imports_parsed = false;
  exports_parsed = false;
  relocs_parsed = false;
}

-- The calls of `malloc`, `calloc` and `realloc` in the loader: any of them may fail.
pub data AllocSite : Type 0 where
  sections raw mapped export_names name_rvas : AllocSite
  imports export_name : ℕ → AllocSite
