-- ===== src/Tests/Pe.antt =====
-- src/loader/pe.c on the sample.
use fantastic_octo_meme.Prelude.{◌+◌, ◌≤◌, ◌≡◌, [], ◌∷◌, take, drop, some, none, refl, arith, ◌⊎◌}
use fantastic_octo_meme.Memory.{done, zeros, slice, splice, IsSafe}
use fantastic_octo_meme.Pe.Bounds.{Parsed, parse_headers-IsSafe, parse_headers-Parsed}
use fantastic_octo_meme.Pe.Headers.{
  read_sections, read_dos, read_coff, read_optional, read_table, parse_headers,
}
use fantastic_octo_meme.Pe.Image.{Image}
use fantastic_octo_meme.Pe.Rva.{section_for_rva, image_rva, image_read}
use fantastic_octo_meme.Pe.Rva.Reads.{Fits, image_read_lem}
use fantastic_octo_meme.Tests.Sample.{plenty, sample, sample_headers, sample_mapped, sample_image}
use fantastic_octo_meme.Util.{u16, u32, le32}

sample_parses : parse_headers plenty sample ≡ done sample_headers
unfolding parse_headers read_dos read_coff read_optional read_table read_sections u16 u32 le32 slice
    splice zeros
sample_parses = refl

parse_headers-IsSafe_example : IsSafe (parse_headers plenty (take 300 sample))
parse_headers-IsSafe_example = parse_headers-IsSafe plenty (take 300 sample)

parse_headers-Parsed_example : Parsed sample sample_headers
parse_headers-Parsed_example = parse_headers-Parsed plenty sample sample_headers sample_parses

-- An image of 10 bytes whose headers are said to be 372 bytes long.
abbrev small : Image
small = record sample_headers { mapped = some (take 10 sample_mapped); mapped_size = 10 }

sample_image-Fits : Fits sample_image
unfolding u16 u32
sample_image-Fits = omega arith

image_read_lem_example :
    (image_read sample_image 432 2 ≡ done none)
    ⊎ ((432 + 2 ≤ sample_image.mapped_size)
        × (image_read sample_image 432 2 ≡ done (some (take 2 (drop 432 sample_mapped)))))
unfolding u16 u32
image_read_lem_example = image_read_lem sample_image sample_mapped 432 2 refl refl

image_read_name : image_read sample_image 432 2 ≡ done (some (b'a' ∷ b'.' ∷ []))
unfolding image_read image_rva section_for_rva u16 u32 slice
image_read_name = refl
