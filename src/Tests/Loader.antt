-- ===== src/Tests/Loader.antt =====
-- src/loader/loader.c on the sample.
use fantastic_octo_meme.Prelude.{
  ℕ, zero, suc, ◌+◌, ◌^◌, ◌≤◌, ◌<◌, ◌≡◌, ◌↔◌, Bool, true, [], ◌∷◌, length, get_or, take, drop, some,
  none, refl, arith,
}
use fantastic_octo_meme.Loader.Imports.{
  read_thunk, grow, resolve_at, store_import, add_import, import_name, thunk_loop, descriptor_loop,
  parse_imports,
}
use fantastic_octo_meme.Loader.Imports.Ends.{parse_imports-Ends}
use fantastic_octo_meme.Loader.Imports.Resolved.{AllBound, parse_imports_bound}
use fantastic_octo_meme.Loader.Relocs.{parse_relocs}
use fantastic_octo_meme.Loader.Relocs.Ends.{parse_relocs-IsSafe}
use fantastic_octo_meme.Loader.Relocs.Hangs.{parse_relocs_hangs}
use fantastic_octo_meme.Loader.Sections.{map_section, map_loop, map_headers, map_sections}
use fantastic_octo_meme.Loader.Sections.Agreement.{image_rva_raw-agrees}
use fantastic_octo_meme.Loader.Sections.Contents.{layers, header_byte, map_sections_contents}
use fantastic_octo_meme.Loader.Sections.Overread.{EndInFile, map_sections-IsSafe_iff}
use fantastic_octo_meme.Memory.{
  Bytes, AllBytes, done, fault, pending, zeros, slice, splice, IsSafe, Ends,
}
use fantastic_octo_meme.Pe.Image.{Image}
use fantastic_octo_meme.Pe.Rva.{section_for_rva, image_rva, image_rva_raw, image_read}
use fantastic_octo_meme.Tests.Sample.{
  plenty, sample, sample_headers, sample_mapped, sample_section, sample_image, relocs_image,
  one_block, back_block,
}
use fantastic_octo_meme.Pe.Layout.BaseReloc
use fantastic_octo_meme.Tests.Win32.{one}
use fantastic_octo_meme.Util.{u16, u32, le32, text_of}
use fantastic_octo_meme.Win32.Registry.{
  resolve, find_module, lookup_in, export_exists, exists_in, find_in, lookup, module_name_eq,
  str_eq, stem, equal_folded, to_lower,
}

sample_maps : map_sections plenty sample sample_headers ≡ done sample_image
unfolding map_sections map_headers map_loop map_section u16 u32 slice splice zeros
sample_maps = refl

-- The same file without its last byte: the section's data begins inside it and ends outside.
map_sections_overread :
    map_sections plenty (take 491 sample) (record sample_headers { raw_size = 491 }) ≡ fault
unfolding map_sections map_headers map_loop map_section u16 u32 slice splice zeros
map_sections_overread = refl

map_sections-IsSafe_iff_example :
    IsSafe (map_sections plenty sample sample_headers) ↔ EndInFile 492 500 sample_headers.sections
unfolding u16 u32
map_sections-IsSafe_iff_example =
    map_sections-IsSafe_iff plenty sample sample_headers refl (λ e. absurd (omega arith)) refl

map_sections_contents_example :
    (m : Bytes) × (sample_image.mapped ≡ some m)
    × (sample_image.mapped_size ≡ 500)
    × (length m ≡ 500)
    × ((i : ℕ)
        → i < 500
        → get_or m i 0 ≡ layers sample 500 i (header_byte sample 372 i) sample_headers.sections)
unfolding u16 u32
map_sections_contents_example =
    map_sections_contents plenty sample sample_headers sample_image refl sample_maps

image_rva_raw-agrees_example :
    (m : Bytes) × (sample_image.mapped ≡ some m) × (get_or m 432 0 ≡ get_or sample 424 0)
unfolding image_rva_raw section_for_rva u16 u32
image_rva_raw-agrees_example =
    image_rva_raw-agrees plenty sample sample_headers sample_image sample_section 432 424 refl
      sample_maps ((λ _. tt), tt) (omega arith) (omega arith) refl refl refl

small_blocks :
    (rva : ℕ) → rva + 8 ≤ 16 → rva + BaseReloc.size_of_block (take 8 (drop rva one_block)) < 2 ^ 32
unfolding u32
small_blocks zero h = omega arith
small_blocks (suc zero) h = omega arith
small_blocks (suc (suc zero)) h = omega arith
small_blocks (suc (suc (suc zero))) h = omega arith
small_blocks (suc (suc (suc (suc zero)))) h = omega arith
small_blocks (suc (suc (suc (suc (suc zero))))) h = omega arith
small_blocks (suc (suc (suc (suc (suc (suc zero)))))) h = omega arith
small_blocks (suc (suc (suc (suc (suc (suc (suc zero))))))) h = omega arith
small_blocks (suc (suc (suc (suc (suc (suc (suc (suc zero)))))))) h = omega arith
small_blocks (suc (suc (suc (suc (suc (suc (suc (suc (suc n))))))))) h = absurd (omega arith)

parse_relocs-IsSafe_example : IsSafe (parse_relocs 3 (relocs_image 8 one_block))
unfolding u32
parse_relocs-IsSafe_example =
    parse_relocs-IsSafe (relocs_image 8 one_block) one_block 2 refl refl small_blocks (omega arith)

parse_relocs_hangs_example : parse_relocs 1000000 (relocs_image 16 back_block) ≡ pending
unfolding image_read image_rva section_for_rva slice u16 u32
parse_relocs_hangs_example =
    parse_relocs_hangs (relocs_image 16 back_block) (take 8 (drop 8 back_block))
      (drop 16 back_block) 1000000 (omega arith) (omega arith) (omega arith) refl refl refl refl

sample_mapped-AllBytes : AllBytes sample_mapped
sample_mapped-AllBytes = omega arith

parse_imports-Ends_example : Ends (parse_imports 127 plenty one sample_image)
unfolding u16 u32
parse_imports-Ends_example =
    parse_imports-Ends plenty one sample_image sample_mapped 126 refl refl sample_mapped-AllBytes
      (omega arith) (omega arith)

-- The image with its two imports: "f" of "a.dll", which the registry has, and the fifth by number.
abbrev sample_imports : Image
sample_imports = record sample_image {
  imports =
      record { module_name = 432; name = some 440; ordinal = 0; resolved = 77 }
      ∷ record { module_name = 432; name = none; ordinal = 5; resolved = 0 }
      ∷ [];
  import_count = 2;
  imports_parsed = true;
}

sample_parses_imports : parse_imports 4 plenty one sample_image ≡ done sample_imports
unfolding parse_imports descriptor_loop thunk_loop read_thunk grow resolve_at store_import
    add_import import_name image_read image_rva section_for_rva slice u16 u32 le32 text_of resolve
    find_module lookup_in export_exists exists_in find_in lookup module_name_eq str_eq stem
    equal_folded to_lower
sample_parses_imports = refl

parse_imports_bound_example :
    AllBound plenty one sample_image sample_imports.imports
    × (sample_imports.import_count ≡ 2)
    × (◌≡◌ {A = Bool} true true)
    × (sample_imports.mapped ≡ some sample_mapped)
unfolding u16 u32
parse_imports_bound_example =
    parse_imports_bound plenty one sample_image 4 sample_imports (omega arith) (omega arith)
      sample_parses_imports
