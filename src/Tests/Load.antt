-- ===== src/Tests/Load.antt =====
-- The stages of src/loader/loader.c together, on the sample.
use fantastic_octo_meme.Prelude.{◌≡◌, true, [], ◌∷◌, take, drop, some, refl}
use fantastic_octo_meme.Loader.Exports.{
  name_text, export_name, export_loop, export_table, parse_exports,
}
use fantastic_octo_meme.Loader.Load.{load_buffer}
use fantastic_octo_meme.Loader.Sections.{map_section, map_loop, map_headers, map_sections}
use fantastic_octo_meme.Memory.{done, slice, splice, zeros}
use fantastic_octo_meme.Pe.Headers.{
  read_sections, read_dos, read_coff, read_optional, read_table, parse_headers,
}
use fantastic_octo_meme.Pe.Image.{Image}
use fantastic_octo_meme.Pe.Rva.{section_for_rva, image_rva, image_read}
use fantastic_octo_meme.Tests.Sample.{plenty, sample, sample_mapped, sample_image}
use fantastic_octo_meme.Tests.Win32.{one}
use fantastic_octo_meme.Util.{u16, u32, le32}

-- The image with its one export, "g".
abbrev sample_exports : Image
sample_exports = record sample_image {
  export_names = some (some (b'g' ∷ 0 ∷ []) ∷ []);
  export_name_count = 1;
  exports_parsed = true;
}

sample_export_table :
    export_table plenty sample_image (take 40 (drop 444 sample_mapped)) ≡ done sample_exports
unfolding export_table export_loop export_name name_text image_read image_rva section_for_rva slice
    u16 u32
sample_export_table = refl

-- The file loaded with its sections and its exports.
sample_loads : load_buffer 4 plenty one sample 5 ≡ done sample_exports
unfolding load_buffer parse_headers read_dos read_coff read_optional read_table read_sections
    map_sections map_headers map_loop map_section parse_exports export_table export_loop export_name
    name_text image_read image_rva section_for_rva slice splice zeros u16 u32 le32
sample_loads = refl
