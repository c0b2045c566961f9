-- ===== src/Pe/Rva.antt =====
-- The RVA translation of src/loader/pe.c. A pointer into the mapped image, or into the file, is
-- the offset from its start: the code computes it without comparing it with the end.
pub mod Reads
use fantastic_octo_meme.Prelude.{
  ℕ, ◌+◌, ◌-◌, Bool, ◌&&◌, List, [], ◌∷◌, max, ltb, leb, ◌==◌, Option, some, none, if◌then◌else◌,
}
use fantastic_octo_meme.Memory.{Bytes, Outcome, done, ◌>>=◌, slice}
use fantastic_octo_meme.Pe.Image.{SectionView, Image}
use fantastic_octo_meme.Pe.Layout.OptionalHeader

-- The test of `section_for_rva`.
abbrev pub covers : SectionView → ℕ → Bool
covers s rva =
    leb s.virtual_address rva && ltb rva (s.virtual_address + max s.virtual_size s.raw_size)

-- `section_for_rva` gives the index of the first section that holds the address, and its caller
-- reads that section.
unfoldable pub section_for_rva : List SectionView → ℕ → Option SectionView
section_for_rva [] rva = none
section_for_rva (s ∷ ss) rva = if covers s rva then some s else section_for_rva ss rva

-- `cellar_image_rva`: the offset of the pointer that it returns.
unfoldable pub image_rva : Image → ℕ → Option ℕ
image_rva img rva = elim img.mapped [
  | none ↦ none
  | some _ ↦
      if ltb rva (OptionalHeader.size_of_headers img.opt)
      then some rva
      else elim (section_for_rva img.sections rva) [ none ↦ none | some _ ↦ some rva ]
]

-- `cellar_image_rva_raw`.
unfoldable pub image_rva_raw : Image → ℕ → Option ℕ
image_rva_raw img rva = elim img.raw [
  | none ↦ none
  | some _ ↦
      if ltb rva (OptionalHeader.size_of_headers img.opt)
      then some rva
      else elim (section_for_rva img.sections rva) [
        | none ↦ none
        | some s ↦
            let delta = rva - s.virtual_address in
            if ltb delta s.raw_size then some (s.raw_offset + delta) else none
      ]
]

-- A `memcpy` from the mapped image, or from null.
abbrev pub mapped_slice : Option Bytes → ℕ → ℕ → Outcome Bytes
mapped_slice none off len = Outcome.fault
mapped_slice (some m) off len = slice m off len

-- `cellar_image_read`: `none` is the result `false`, and else these are the bytes stored.
unfoldable pub image_read : Image → ℕ → ℕ → Outcome (Option Bytes)
image_read img rva len = if len == 0 then done none else elim (image_rva img rva) [
  | none ↦ done none
  | some p ↦
      if ltb img.mapped_size (rva + len)
      then done none
      else (mapped_slice img.mapped p len >>= λ b. done (some b))
]
