-- ===== src/Pe/Rva/Reads.antt =====
-- What a translated address and a checked read promise.
use fantastic_octo_meme.Prelude.{
  ℕ, ◌+◌, ◌≤◌, ◌<◌, ◌≡◌, List, [], ◌∷◌, length, take, drop, max, refl, arith, some, none, ◌⊎◌, inl,
}
use fantastic_octo_meme.Memory.{Bytes, done, fault, slice}
use fantastic_octo_meme.Memory.Laws.{slice-eq-done}
use fantastic_octo_meme.Pe.Image.{SectionView, Image}
use fantastic_octo_meme.Pe.Layout.OptionalHeader
use fantastic_octo_meme.Pe.Rva.{section_for_rva, image_rva, image_read}

-- The headers and every section end inside the mapped image.
abbrev SectionsFit : ℕ → List SectionView → Type 0
SectionsFit size [] = Unit {0}
SectionsFit size (s ∷ ss) =
    (s.virtual_address + max s.virtual_size s.raw_size ≤ size) × SectionsFit size ss

pub record Fits (img : Image) : Type 0 where
  pub headers : OptionalHeader.size_of_headers img.opt ≤ img.mapped_size
  pub sections : SectionsFit img.mapped_size img.sections

section_for_rva-lt :
    (size rva : ℕ) (ss : List SectionView)
    → SectionsFit size ss
    → (section_for_rva ss rva ≡ none) ⊎ (rva < size)
unfolding section_for_rva
section_for_rva-lt size rva [] fits = inl refl
section_for_rva-lt size rva (t ∷ ss) (fit, fits) =
    ground (arith, section_for_rva-lt size rva ss fits)

-- A translated address is the address itself, or null.
pub image_rva_cases :
    (img : Image) (rva : ℕ) → (image_rva img rva ≡ none) ⊎ (image_rva img rva ≡ some rva)
unfolding image_rva
image_rva_cases img rva = ground arith

-- In an image whose headers and sections fit it, a translated address lies inside it.
pub image_rva-lt :
    (img : Image) (rva p : ℕ)
    → Fits img
    → image_rva img rva ≡ some p
    → (p ≡ rva) × (p < img.mapped_size)
unfolding image_rva
image_rva-lt img rva p f h =
    ground (arith, section_for_rva-lt img.mapped_size rva img.sections f.sections)

-- The check that is missing: headers longer than the image make `cellar_image_rva` point outside.
pub image_rva_outside :
    (img : Image) (m : Bytes) (rva : ℕ)
    → img.mapped ≡ some m
    → length m ≡ img.mapped_size
    → img.mapped_size ≤ rva
    → rva < OptionalHeader.size_of_headers img.opt
    → (image_rva img rva ≡ some rva) × (slice m rva 1 ≡ fault) × (image_read img rva 1 ≡ done none)
unfolding image_rva image_read slice
image_rva_outside img m rva is_m len over h = ground arith

-- A checked read never leaves the image, whatever its headers say, and what it stores are the
-- bytes of the image at the address.
pub image_read_lem :
    (img : Image) (m : Bytes) (rva len : ℕ)
    → img.mapped ≡ some m
    → length m ≡ img.mapped_size
    → (image_read img rva len ≡ done none)
      ⊎ ((rva + len ≤ img.mapped_size)
          × (image_read img rva len ≡ done (some (take len (drop rva m)))))
unfolding image_read
image_read_lem img m rva len is_m total =
    ground (arith, image_rva_cases img rva, slice-eq-done m rva len)
