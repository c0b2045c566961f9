-- ===== src/Tests/Sample.antt =====
-- A small PE file with one section, an import and an export directory and relocations, and the
-- image that it parses to.
use fantastic_octo_meme.Prelude.{
  ℕ, Bool, true, [], ◌∷◌, ◌++◌, take, drop, length, replicate, some, none,
}
use fantastic_octo_meme.Memory.{Bytes}
use fantastic_octo_meme.Pe.Headers.{section_view, headers_image}
use fantastic_octo_meme.Pe.Image.{SectionView, Image, AllocSite}
use fantastic_octo_meme.Loader.Sections.{mapped_image}

-- Memory never runs out.
abbrev pub plenty : AllocSite → Bool
plenty _ = true

-- 32 bits whose upper half is zero, from their two low bytes.
abbrev word : ℕ → ℕ → Bytes
word lo hi = lo ∷ hi ∷ 0 ∷ 0 ∷ []

abbrev dos : Bytes
dos = 0x4D ∷ 0x5A ∷ (replicate 58 0 ++ word 64 0)

abbrev coff : Bytes
coff = 0x4C ∷ 1 ∷ 1 ∷ 0 ∷ (replicate 12 0 ++ 0xF4 ∷ 0 ∷ 0 ∷ 0x20 ∷ [])

-- 500 bytes of image, 372 of headers; exports at 444, imports at 380, relocations at 492.
abbrev opt : Bytes
opt =
    0x0B
    ∷ 1
    ∷ (replicate 58 0
        ++ word 0xF4 1
        ++ word 0x74 1
        ++ replicate 48 0
        ++ word 0xBC 1
        ++ word 40 0
        ++ word 0x7C 1
        ++ word 40 0
        ++ replicate 24 0
        ++ word 0xEC 1
        ++ word 8 0
        ++ replicate 80 0)

-- 120 bytes at address 380, from offset 372 of the file.
abbrev section : Bytes
section =
    0x2E ∷ 0x74 ∷ replicate 6 0
    ++ word 120 0
    ++ word 0x7C 1
    ++ word 120 0
    ++ word 0x74 1
    ++ replicate 16 0

abbrev contents : Bytes
contents =
    replicate 12 0
    ++ word 0xB0 1
    ++ word 0xA4 1
    ++ replicate 20 0
    ++ word 0xB6 1
    ++ (5 ∷ 0 ∷ 0 ∷ 0x80 ∷ [])
    ++ replicate 4 0
    ++ (b'a' ∷ b'.' ∷ b'd' ∷ b'l' ∷ b'l' ∷ 0 ∷ [])
    ++ (0 ∷ 0 ∷ b'f' ∷ 0 ∷ 0 ∷ 0 ∷ [])
    ++ replicate 24 0
    ++ word 1 0
    ++ replicate 4 0
    ++ word 0xE4 1
    ++ replicate 4 0
    ++ word 0xE8 1
    ++ (b'g' ∷ 0 ∷ 0 ∷ 0 ∷ [])
    ++ replicate 4 0
    ++ word 8 0

abbrev pub sample : Bytes
sample = dos ++ (0x50 ∷ 0x45 ∷ 0 ∷ 0 ∷ []) ++ coff ++ opt ++ section ++ contents

abbrev pub sample_headers : Image
sample_headers = headers_image sample dos coff opt (section_view section ∷ [])

abbrev pub sample_mapped : Bytes
sample_mapped = take 372 sample ++ replicate 8 0 ++ contents

abbrev pub sample_section : SectionView
sample_section = record {
  name = take 8 section;
  virtual_address = 380;
  virtual_size = 120;
  raw_offset = 372;
  raw_size = 120;
  characteristics = 0;
  mapped = none;
}

abbrev pub sample_image : Image
sample_image =
    mapped_image sample_headers sample_mapped (record sample_section { mapped = some 380 } ∷ [])

-- Images of a few bytes with a relocation directory at address 8, and no section.
abbrev pub relocs_image : ℕ → Bytes → Image
relocs_image size bytes =
    record (headers_image sample dos coff (take 156 opt ++ word 8 0 ++ word size 0 ++ drop 164 opt)
      []) { mapped = some bytes; mapped_size = length bytes }

-- One block of eight bytes.
abbrev pub one_block : Bytes
one_block = replicate 12 0 ++ word 8 0

-- A block of eight bytes, and one whose size is 2^32 - 8.
abbrev pub back_block : Bytes
back_block = replicate 12 0 ++ word 8 0 ++ replicate 4 0 ++ (0xF8 ∷ 0xFF ∷ 0xFF ∷ 0xFF ∷ [])
