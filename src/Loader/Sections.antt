-- ===== src/Loader/Sections.antt =====
-- `map_sections` of src/loader/loader.c, without the prefault at its end, which only reads pages.
pub mod Contents
pub mod Overread
pub mod Agreement
use fantastic_octo_meme.Prelude.{
  ℕ, ◌+◌, Bool, true, not, ◌&&◌, ◌||◌, List, [], ◌∷◌, min, leb, ltb, ◌==◌, some, if◌then◌else◌,
}
use fantastic_octo_meme.Memory.{
  Bytes, Outcome, done, fail, ◌>>=◌, ◌>>◌, guard, slice, splice, zeros,
}
use fantastic_octo_meme.Pe.Image.{SectionView, Image, AllocSite}
use fantastic_octo_meme.Pe.Layout.OptionalHeader
use fantastic_octo_meme.Pe.Rva.{mapped_slice}
use fantastic_octo_meme.Status.{err_pe_bad_sections, err_out_of_memory}

-- The two tests of the loop: the section has raw data that begins inside the file, and it fits
-- the image. Nothing compares the end of the raw data with the end of the file.
abbrev pub is_copied : ℕ → ℕ → SectionView → Bool
is_copied raw_size mapped_size s =
    not (s.raw_size == 0 || leb raw_size s.raw_offset)
    && not (ltb mapped_size (s.virtual_address + s.raw_size))

-- One round of the loop, on a file and a mapped image.
unfoldable pub map_section : Bytes → ℕ → ℕ → Bytes → SectionView → Outcome (Bytes × SectionView)
map_section raw raw_size mapped_size m s =
    if is_copied raw_size mapped_size s
    then (do
      piece ← slice raw s.raw_offset s.raw_size
      m' ← splice m s.virtual_address piece
      done (m', record s { mapped = some s.virtual_address }))
    else done (m, s)

unfoldable pub map_loop :
    Bytes → ℕ → ℕ → Bytes → List SectionView → Outcome (Bytes × List SectionView)
map_loop raw raw_size mapped_size m [] = done (m, [])
map_loop raw raw_size mapped_size m (s ∷ ss) = do
  (m', s') ← map_section raw raw_size mapped_size m s
  (m'', ss') ← map_loop raw raw_size mapped_size m' ss
  done (m'', s' ∷ ss')

-- The cleared image with the headers copied to its start.
unfoldable pub map_headers : Bytes → ℕ → ℕ → ℕ → Outcome Bytes
map_headers raw raw_size size_of_headers mapped_size = do
  headers ← slice raw 0 (min (min size_of_headers mapped_size) raw_size)
  splice (zeros mapped_size) 0 headers

-- What the function stores in the image.
abbrev pub mapped_image : Image → Bytes → List SectionView → Image
mapped_image img m ss = record img {
  mapped = some m;
  mapped_size = OptionalHeader.size_of_image img.opt;
  sections = ss;
  sections_mapped = true;
}

unfoldable pub map_sections : (AllocSite → Bool) → Bytes → Image → Outcome Image
map_sections alloc raw img =
    let size = OptionalHeader.size_of_image img.opt in
    if size == 0 then fail err_pe_bad_sections else (do
      guard (alloc AllocSite.mapped) err_out_of_memory
      m0 ← map_headers raw img.raw_size (OptionalHeader.size_of_headers img.opt) size
      (m, ss) ← map_loop raw img.raw_size size m0 img.sections
      done (mapped_image img m ss))
